-- ===== src/Tests/Backup.antt =====
-- Runs of backup and restore on a source of three bytes, in blocks of two.
use benji.Prelude.{
  ◌⊎◌, ◌≤◌, ℕ, zero, suc, ◌+◌, ◌*◌, ◌==◌, ◌≡◌, ◌<◌, refl, true, false, none, some, List, [], ◌∷◌,
  arith, Text, take, contains, any, range_from, length, inr, All,
}
use benji.Storage.Uid.{BlockUid}
use benji.Database.{
  all_blocks, Version, Block, Database, valid, incomplete, get_block_by_idx, blocks_count,
  block_length, in_storage, create_blocks,
}
use benji.Database.Windows.{iterated_blocks}
use benji.Database.Windows.Whole.{AreKeyed, iterated_blocks-whole}
use benji.Backup as B
use benji.Backup.{Bytes, Objects, zeros}
use benji.Backup.Finish.{IsDone, steps, backup_finishes, backup_ends}
use benji.Backup.Hints.{Hint, read_blocks, sparse_blocks, has_read, has_sparse, blocks_from_hints}
use benji.Backup.Hinted.{block_data, AreTrue, hinted_backup}
use benji.Backup.Result.{content, queued, IsStoredFor}
use benji.Clone.{create_version, create_packages, new_block, old_block}
use benji.Clone.Result.{create_version-IsSized, inherited_block, created_block}
use benji.Clone.Grown.{grown_block_lost}
use benji.Clone.Stored.{create_version-IsStoredFor, create_version-AreForeign}
use benji.Restore.{open_w, Metadata, State, Reach}
use benji.Restore.Whole as R
use benji.Restore.Whole.{restoring, backup_restore}
use benji.Restore.Finish.{restore_finishes}
use benji.Restore.Opening.{open_w_outcome}
use benji.Restore.Missing.{missing_object_fails}

-- A digest without collisions.
abbrev digest : Bytes → Text
digest bytes = bytes

abbrev metadata : BlockUid → Metadata
metadata uid = record { size = 0; checksum = [] }

abbrev v : Version
v = record {
  id = 1;
  size = 3;
  block_size = 2;
  storage_id = 1;
  status = incomplete;
  protected = false;
}

abbrev source : Bytes
source = 5 ∷ 6 ∷ 7 ∷ []

abbrev empty_db : Database
empty_db = record { versions = v ∷ []; blocks = []; deleted_blocks = [] }

abbrev db : Database
db = record empty_db { blocks = create_version v none 10 [] }

abbrev backing_up : B.State
backing_up =
    queued digest v (block_data v source) (blocks_count v) source (range_from 0 (blocks_count v)) []
      db []

abbrev backed_up : (t : B.State) × B.Reach digest v source backing_up t × IsDone digest v source t
backed_up = backup_finishes digest v source backing_up

abbrev target : Bytes
target = 9 ∷ 9 ∷ 9 ∷ 9 ∷ []

abbrev restored :
    (t : State) × Reach digest metadata backed_up.0.objects v
      (restoring v false backed_up.0.db target)
      t
    × R.IsDone t
restored =
    restore_finishes digest metadata backed_up.0.objects v (restoring v false backed_up.0.db target)

backup_restore_example : (restored.0.failed ≡ false) × (take 3 restored.0.target ≡ 5 ∷ 6 ∷ 7 ∷ [])
backup_restore_example =
    backup_restore digest metadata v source (λ a b e. e) (omega arith) refl db []
      (create_version-IsSized v none 10 empty_db (λ k h. refl))
      (create_version-IsStoredFor digest v empty_db [] none 10 (λ w e. absurd cc) tt)
      (create_version-AreForeign v none 10 [] tt) backed_up.0 backed_up.1 backed_up.2.0
      backed_up.2.1 false target (omega arith) (λ e. absurd cc) restored.0 restored.1 restored.2

-- A version with a base version: the first block is changed, the second is as it was.
abbrev base : Version
base = record {
  id = 1;
  size = 3;
  block_size = 2;
  storage_id = 1;
  status = valid;
  protected = false;
}

abbrev next_v : Version
next_v = record base { id = 2; status = incomplete }

abbrev base_block : ℕ → Bytes → Block
base_block idx bytes = record {
  version_id = 1;
  idx = idx;
  uid = some record { left = 1; right = idx + 1 };
  checksum = some bytes;
  size = length bytes;
  is_valid = true;
}

abbrev base_db : Database
base_db = record {
  versions = base ∷ next_v ∷ [];
  blocks = base_block 0 (5 ∷ 6 ∷ []) ∷ base_block 1 (7 ∷ []) ∷ [];
  deleted_blocks = [];
}

abbrev objects : Objects
objects =
    (record { left = 1; right = 1 }, 5 ∷ 6 ∷ []) ∷ (record { left = 1; right = 2 }, 7 ∷ []) ∷ []

abbrev next_db : Database
next_db = record base_db { blocks = create_version next_v (some base) 10 base_db.blocks }

abbrev next_source : Bytes
next_source = 8 ∷ 9 ∷ 7 ∷ []

abbrev hints : List Hint
hints = record { offset = 0; length = 2; exists = true } ∷ []

abbrev hinting_up : B.State
hinting_up =
    queued digest next_v (block_data next_v next_source) (blocks_count next_v) next_source
      (read_blocks 2 hints) (sparse_blocks 2 hints) next_db objects

abbrev hinted_up :
    (t : B.State) × B.Reach digest next_v next_source hinting_up t
    × IsDone digest next_v next_source t
hinted_up = backup_finishes digest next_v next_source hinting_up

hints_unchanged :
    (k : ℕ)
    → k < 2
    → any (has_read 2 k) hints ≡ false
    → any (has_sparse 2 k) hints ≡ false
    → (get_block_by_idx next_v k next_db.blocks).is_valid ≡ true
    → content objects (get_block_by_idx next_v k next_db.blocks)
      ≡ some (block_data next_v next_source k)
unfolding get_block_by_idx create_version create_packages create_blocks new_block
hints_unchanged zero low unread unsparse sound = absurd cc
hints_unchanged (suc zero) low unread unsparse sound = refl
hints_unchanged (suc (suc k)) low unread unsparse sound = absurd (omega arith)

hints_empty :
    (k : ℕ)
    → k < 2
    → any (has_read 2 k) hints ≡ false
    → any (has_sparse 2 k) hints ≡ true
    → block_data next_v next_source k ≡ zeros (block_length next_v k)
hints_empty k low unread sparse = absurd (ground arith)

hints-AreTrue : AreTrue digest next_v next_source next_db objects hints
hints-AreTrue = record { unchanged = hints_unchanged; empty = hints_empty }

base_storage : (w : Version) → some base ≡ some w → in_storage base_db.versions 1 w.id ≡ true
base_storage w e = let same : base.id ≡ w.id = ground (arith, e) in rw (← same) refl

base_rows : All (IsStoredFor digest next_v base_db objects) base_db.blocks
base_rows = (
  λ usable. inr (record { left = 1; right = 1 }, 5 ∷ 6 ∷ [], refl, refl, refl, refl),
  (λ usable. inr (record { left = 1; right = 2 }, 7 ∷ [], refl, refl, refl, refl), tt),
)

hinted_backup_example :
    content hinted_up.0.objects (get_block_by_idx next_v 1 hinted_up.0.db.blocks) ≡ some (7 ∷ [])
hinted_backup_example =
    hinted_backup digest next_v next_source next_db objects hints (λ a b e. e) (omega arith) refl
      (create_version-IsSized next_v (some base) 10 base_db (λ k h. refl)) hints-AreTrue
      (create_version-IsStoredFor digest next_v base_db objects (some base) 10 base_storage
        base_rows)
      (create_version-AreForeign next_v (some base) 10 base_db.blocks (refl, (refl, tt)))
      hinted_up.0 hinted_up.1 hinted_up.2.0 hinted_up.2.1 1 (omega arith)

create_version-IsStoredFor_example :
    All
      (IsStoredFor digest next_v base_db objects)
      (create_version next_v (some base) 10 base_db.blocks)
create_version-IsStoredFor_example =
    create_version-IsStoredFor digest next_v base_db objects (some base) 10 base_storage base_rows

created_block_example :
    get_block_by_idx next_v 1 (create_version next_v (some base) 10 base_db.blocks)
    ≡ inherited_block next_v 1 (old_block (some base) 1 base_db.blocks)
created_block_example = created_block next_v (some base) 10 base_db.blocks 1 (omega arith) refl

-- The same base version, and a new one with a byte more.
abbrev long_v : Version
long_v = record next_v { size = 4 }

abbrev long_source : Bytes
long_source = 8 ∷ 9 ∷ 7 ∷ 1 ∷ []

abbrev growing : B.State
growing =
    queued digest long_v (block_data long_v long_source) (blocks_count long_v) long_source
      (read_blocks 2 hints) (sparse_blocks 2 hints)
      (record base_db { blocks = create_version long_v (some base) 10 base_db.blocks }) objects

abbrev grown :
    (t : B.State) × B.Reach digest long_v long_source growing t × IsDone digest long_v long_source t
grown = backup_finishes digest long_v long_source growing

grown_block_lost_example :
    All (λ b. (b.idx == 1) ≡ false) grown.0.reads
    × (content grown.0.objects (get_block_by_idx long_v 1 grown.0.db.blocks) ≡ some (0 ∷ 0 ∷ []))
unfolding get_block_by_idx
grown_block_lost_example =
    grown_block_lost digest long_v base long_source 10 base_db objects hints 1 grown.0 (omega arith)
      (omega arith) (omega arith) refl (omega arith) refl refl refl grown.1

-- The first block is hinted at, and so is a part of the second, which is empty.
blocks_from_hints_example :
    (contains (read_blocks 2 (record { offset = 2; length = 1; exists = false } ∷ hints)) 1 ≡ true)
    × (contains (sparse_blocks 2 (record { offset = 2; length = 1; exists = false } ∷ hints)) 1
        ≡ true)
blocks_from_hints_example =
    blocks_from_hints 2 1 (record { offset = 2; length = 1; exists = false } ∷ hints) (omega arith)

backup_ends_example :
    (steps digest v source backed_up.1 + (2 * length backed_up.0.reads + length backed_up.0.writes)
      ≤ 2 * length backing_up.reads + length backing_up.writes)
    × (((backed_up.0.reads ≡ []) × (backed_up.0.writes ≡ []))
        ⊎ ((u : B.State) × B.Step digest v source backed_up.0 u))
backup_ends_example = backup_ends digest v source backing_up backed_up.0 backed_up.1

-- The first block is in the table, but not in the storage.
abbrev lost_db : Database
lost_db = record empty_db {
  blocks =
      record {
        version_id = 1;
        idx = 0;
        uid = some record { left = 1; right = 1 };
        checksum = some [];
        size = 2;
        is_valid = true;
      }
      ∷ [];
}

abbrev lost_end :
    (t : State) × Reach digest metadata [] v (restoring v false lost_db target) t × R.IsDone t
lost_end = restore_finishes digest metadata [] v (restoring v false lost_db target)

missing_object_fails_example : lost_end.0.failed ≡ true
unfolding get_block_by_idx
missing_object_fails_example =
    missing_object_fails digest metadata [] v false lost_db target 0 record { left = 1; right = 1 }
      (omega arith) refl refl lost_end.0 lost_end.1 lost_end.2

base-AreKeyed : AreKeyed base base_db.blocks
base-AreKeyed k = ground arith

iterated_blocks-whole_example :
    iterated_blocks base 1 base_db.blocks ≡ all_blocks base 2 base_db.blocks
iterated_blocks-whole_example =
    iterated_blocks-whole base 1 base_db.blocks (omega arith) base-AreKeyed

open_w_outcome_example :
    (3 ≤ length target)
    × (((true ≡ true) × (some target ≡ some target)) ⊎ ((some target ≡ none) × (target ≡ zeros 3)))
unfolding open_w
open_w_outcome_example = open_w_outcome 3 true (some target) target refl
