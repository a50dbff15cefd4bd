-- ===== src/Tests/Cleanup.antt =====
-- A cleanup with two candidates, one of which is used.
use benji.Prelude.{ℕ, ◌≡◌, refl, true, false, some, none, List, [], ◌∷◌, arith}
use benji.Storage.Uid.{BlockUid}
use benji.Database.{Block, DeletedBlock, Database, Version, valid, remove}
use benji.Cleanup.Removed.{cleaning, removed_reclaimed}
use benji.Cleanup.{State, cleanup, has_object}
use benji.Cleanup.Safe.{cleanup_safe}
use benji.Cleanup.Finish.{cleanup_finishes}

abbrev used : BlockUid
used = record { left = 1; right = 1 }

abbrev unused : BlockUid
unused = record { left = 1; right = 2 }

abbrev listed : BlockUid → DeletedBlock
listed uid = record { storage_id = 7; uid = uid; date = 3 }

abbrev s : State
s = record {
  blocks =
      record {
        version_id = 2;
        idx = 0;
        uid = some used;
        checksum = none;
        size = 1;
        is_valid = true;
      }
      ∷ [];
  deleted_blocks = listed used ∷ listed unused ∷ [];
  objects = (7, used) ∷ (7, unused) ∷ [];
}

abbrev cleaned : (t : State) × (cleanup 1 10 3 s ≡ some t)
cleaned = cleanup_finishes 1 10 3 s (omega arith)

cleanup_finishes_example : (t : State) × (cleanup 1 10 3 s ≡ some t)
cleanup_finishes_example = cleanup_finishes 1 10 3 s (omega arith)

cleanup_safe_example : has_object 7 used cleaned.0.objects ≡ true
cleanup_safe_example = cleanup_safe 1 10 3 s cleaned.0 7 used cleaned.1 refl

-- A version with two blocks, one of which another version has, too.
abbrev removed : Version
removed = record {
  id = 1;
  size = 2;
  block_size = 1;
  storage_id = 7;
  status = valid;
  protected = false;
}

abbrev block : ℕ → ℕ → BlockUid → Block
block version_id idx uid = record {
  version_id = version_id;
  idx = idx;
  uid = some uid;
  checksum = none;
  size = 1;
  is_valid = true;
}

abbrev db : Database
db = record {
  versions = removed ∷ record removed { id = 2 } ∷ [];
  blocks = block 1 0 used ∷ block 1 1 unused ∷ block 2 0 used ∷ [];
  deleted_blocks = [];
}

abbrev objects : List (ℕ × BlockUid)
objects = (7, used) ∷ (7, unused) ∷ []

abbrev reclaimed :
    (t : State) × (cleanup 250 10 3 (cleaning (remove removed 3 db) objects) ≡ some t)
unfolding remove
reclaimed = cleanup_finishes 250 10 3 (cleaning (remove removed 3 db) objects) (omega arith)

removed_reclaimed_example : has_object 7 unused reclaimed.0.objects ≡ false
unfolding remove
removed_reclaimed_example =
    removed_reclaimed (λ uid. 7) removed 3 250 10 3 db objects reclaimed.0 unused (omega arith)
      (omega arith) (refl, (refl, tt)) reclaimed.1 refl
