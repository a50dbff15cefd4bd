-- ===== src/Storage/Uid.antt =====
-- `BlockUid` of src/benji/database.py. Both halves are there, or the uid is that of a sparse block,
-- `BlockUid(None, None)`, which is `none` where an `Option BlockUid` stands.
use benji.Prelude.{ℕ, ◌==◌, ◌≡◌, ◌↔◌, Bool, true, false, ◌&&◌, Option, none, some, arith}

pub record BlockUid : Type 0 where
  pub left : ℕ
  pub right : ℕ

-- `__eq__`
abbrev pub uid_eq : BlockUid → BlockUid → Bool
uid_eq u v = u.left == v.left && u.right == v.right

abbrev pub maybe_uid_eq : Option BlockUid → BlockUid → Bool
maybe_uid_eq none v = false
maybe_uid_eq (some u) v = uid_eq u v

pub uid_eq_iff : (u v : BlockUid) → (uid_eq u v ≡ true) ↔ (u ≡ v)
uid_eq_iff u v = ground arith
