-- ===== src/Locking.antt =====
-- `Locking` of src/benji/database.py: a table of locks that many processes share, whose primary key is
-- the name of the lock. An operation is one transaction: it commits, or it is rolled back.
pub mod Exclusive
pub mod RoundTrip
use benji.Prelude.{
  ℕ, ◌≡◌, Bool, ◌&&◌, ◌||◌, not, true, false, Option, none, some, List, [], ◌∷◌, ◌++◌, map, Text,
  text_eq, if◌then◌else◌, any, filter, ◌⊎◌, inl, inr,
}

-- `_host` and `_process_id()` of a thread of an instance.
pub record Process : Type 0 where
  pub host : Text
  pub process_id : Text

-- A row of `locks`.
pub record Lock : Type 0 where
  pub lock_name : Text
  pub host : Text
  pub process_id : Text
  pub reason : Text
  pub date : ℕ

pub data LockError : Type 0 where
  already_locked internal_error integrity_error : LockError

abbrev pub is_named : Text → Lock → Bool
is_named name l = text_eq l.lock_name name

abbrev pub is_of : Process → Lock → Bool
is_of p l = text_eq l.host p.host && text_eq l.process_id p.process_id

-- The query for a lock of this instance.
abbrev pub is_held : Process → Text → Lock → Bool
is_held p name l = is_named name l && is_of p l

abbrev pub new_lock : Process → Text → Text → ℕ → Lock
new_lock p name reason date = record {
  lock_name = name;
  host = p.host;
  process_id = p.process_id;
  reason = reason;
  date = date;
}

-- A row without a reason breaks a constraint of the table, as one with a name that is taken does. With
-- `override_lock`, a row with the name is replaced.
unfoldable pub lock : Process → Text → Option Text → ℕ → Bool → List Lock → LockError ⊎ List Lock
lock p name none date override locks =
    if any (is_held p name) locks then inl internal_error else inl already_locked
lock p name (some reason) date override locks =
    if any (is_held p name) locks
    then inl internal_error
    else if override
    then inr (filter (λ l. not (is_named name l)) locks ++ new_lock p name reason date ∷ [])
    else if any (is_named name) locks
    then inl already_locked
    else inr (locks ++ new_lock p name reason date ∷ [])

abbrev pub is_locked : Text → List Lock → Bool
is_locked name locks = any (is_named name) locks

-- A row that loses its reason breaks a constraint of the table, and that error is raised again.
unfoldable pub update_lock : Process → Text → Option Text → List Lock → LockError ⊎ List Lock
update_lock p name none locks =
    if any (is_held p name) locks then inl integrity_error else inl internal_error
update_lock p name (some reason) locks =
    if any (is_held p name) locks
    then inr (map (λ l. if is_held p name l then record l { reason = reason } else l) locks)
    else inl internal_error

unfoldable pub unlock : Process → Text → List Lock → LockError ⊎ List Lock
unlock p name locks =
    if any (is_held p name) locks
    then inr (filter (λ l. not (is_held p name l)) locks)
    else inl internal_error

unfoldable pub unlock_all : Process → List Lock → List Lock
unlock_all p = filter (λ l. not (is_of p l))

-- `with_lock` around code that leaves a table, and may raise an exception, which is raised again when the
-- lock is given back.
unfoldable pub with_lock :
    Process
    → Text
    → Option Text
    → ℕ
    → Bool
    → Bool
    → (List Lock → Bool × List Lock)
    → List Lock
    → LockError ⊎ (Bool × List Lock)
with_lock p name reason date unlocks override body locks =
    elim (lock p name reason date override locks) [
      | inl error ↦ inl error
      | inr held ↦
          let (raised, after) = body held in
          if raised || unlocks
          then elim (unlock p name after) [ inl error ↦ inl error | inr left ↦ inr (raised, left) ]
          else inr (raised, after)
    ]

-- What a process does to the table, when it commits.
pub data Step : Process → List Lock → List Lock → Type 0 where
  locks :
      (p : Process) (name : Text) (reason : Option Text) (date : ℕ) (s t : List Lock)
      → lock p name reason date false s ≡ inr t
      → Step p s t
  updates :
      (p : Process) (name : Text) (reason : Option Text) (s t : List Lock)
      → update_lock p name reason s ≡ inr t
      → Step p s t
  unlocks : (p : Process) (name : Text) (s t : List Lock) → unlock p name s ≡ inr t → Step p s t
  unlocks_all : (p : Process) (s : List Lock) → Step p s (unlock_all p s)

-- The same, or a lock that overrides another.
pub data AnyStep : Process → List Lock → List Lock → Type 0 where
  careful : {p : Process} {s t : List Lock} → Step p s t → AnyStep p s t
  overrides :
      (p : Process) (name : Text) (reason : Option Text) (date : ℕ) (s t : List Lock)
      → lock p name reason date true s ≡ inr t
      → AnyStep p s t

-- The tables that processes can leave, from an empty one.
pub data Reach : List Lock → Type 0 where
  empty : Reach []
  next : {p : Process} {s t : List Lock} → Reach s → AnyStep p s t → Reach t

-- What others do, without overriding a lock.
pub data Others (p : Process) (start : List Lock) : List Lock → Type 0 where
  none_yet : Others p start start
  another :
      {q : Process} {s t : List Lock}
      → Others p start s
      → (text_eq q.host p.host && text_eq q.process_id p.process_id) ≡ false
      → Step q s t
      → Others p start t
