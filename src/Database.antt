-- ===== src/Database.antt =====
-- The tables of src/benji/database.py as lists of rows, and what `Version` and `DeletedBlock` do to
-- them. A query is a filter on a table; `.first()` takes the first row of a table whose order means
-- nothing. An operation that is committed is a function on the tables.
pub mod Blocks
pub mod Windows
use benji.Prelude.{
  ℕ, ◌==◌, ◌+◌, ◌-◌, ◌*◌, ◌/◌, Bool, ◌&&◌, ◌||◌, not, true, false, Option, none, some, List, [],
  ◌∷◌, ◌++◌, map, Text, maybe_eq, is_some, if◌then◌else◌, ltb, filter, find, range_from,
}
use benji.Storage.Uid.{BlockUid}

pub data VersionStatus : Type 0 where
  incomplete valid invalid : VersionStatus

-- A row of `versions`; the uid is the key of the table for all others, so it is not modelled.
pub record Version : Type 0 where
  pub id : ℕ
  pub size : ℕ
  pub block_size : ℕ
  pub storage_id : ℕ
  pub status : VersionStatus
  pub protected : Bool

-- A row of `blocks`, with the primary key `(version_id, idx)`.
pub record Block : Type 0 where
  pub version_id : ℕ
  pub idx : ℕ
  pub uid : Option BlockUid
  pub checksum : Option Text
  pub size : ℕ
  pub is_valid : Bool

pub record DeletedBlock : Type 0 where
  pub storage_id : ℕ
  pub uid : BlockUid
  pub date : ℕ

pub record Database : Type 0 where
  pub versions : List Version
  pub blocks : List Block
  pub deleted_blocks : List DeletedBlock

-- `blocks_count`, `math.ceil(self.size / self.block_size)`
abbrev pub blocks_count : Version → ℕ
blocks_count v = (v.size + v.block_size - 1) / v.block_size

-- `min(version.block_size, new_size - offset)`
abbrev pub block_length : Version → ℕ → ℕ
block_length v k =
    let rest = v.size - k * v.block_size in if ltb v.block_size rest then v.block_size else rest

-- The row with a primary key.
abbrev pub is_row : ℕ → ℕ → Block → Bool
is_row version_id idx b = b.version_id == version_id && b.idx == idx

abbrev pub row : ℕ → ℕ → List Block → Option Block
row version_id idx = find (is_row version_id idx)

-- `_create_sparse_block`
abbrev pub sparse_block : Version → ℕ → Block
sparse_block v idx = record {
  version_id = v.id;
  idx = idx;
  uid = none;
  checksum = none;
  size = v.block_size;
  is_valid = true;
}

abbrev pub block_or : Block → Option Block → Block
block_or b none = b
block_or b (some r) = r

unfoldable pub get_block_by_idx : Version → ℕ → List Block → Block
get_block_by_idx v idx blocks = block_or (sparse_block v idx) (row v.id idx blocks)

-- The blocks of a version, in order; that `Version.blocks`, which goes through windows of rows, yields
-- them is shown in Database/Windows.
abbrev pub all_blocks : Version → ℕ → List Block → List Block
all_blocks v n blocks = map (λ k. get_block_by_idx v k blocks) (range_from 0 n)

-- The block of a version, of some data.
abbrev pub data_block : Version → ℕ → Option BlockUid → Option Text → ℕ → Bool → Block
data_block v idx uid checksum size is_valid = record {
  version_id = v.id;
  idx = idx;
  uid = uid;
  checksum = checksum;
  size = size;
  is_valid = is_valid;
}

-- The rows of a table without the one with a key, and with that one replaced.
abbrev pub delete_row : ℕ → ℕ → List Block → List Block
delete_row version_id idx = filter (λ b. not (is_row version_id idx b))

abbrev pub update_row : Block → List Block → List Block
update_row new = map (λ b. if is_row new.version_id new.idx b then new else b)

-- `set_block`, for the block that it is to be.
unfoldable pub set_block : Version → Block → List Block → List Block
set_block v new blocks =
    let is_sparse = not (is_some new.uid) && new.size == v.block_size in
    if is_some (row v.id new.idx blocks)
    then if is_sparse then delete_row v.id new.idx blocks else update_row new blocks
    else if is_sparse
    then blocks
    else blocks ++ new ∷ []

-- `create_blocks` leaves out the blocks that are fully sparse.
abbrev pub is_stored : Version → Block → Bool
is_stored v b = is_some b.uid || not (b.size == v.block_size)

unfoldable pub create_blocks : Version → List Block → List Block → List Block
create_blocks v new blocks = blocks ++ filter (is_stored v) new

-- `get_block_by_checksum`: a valid block of a version in the same storage.
abbrev pub in_storage : List Version → ℕ → ℕ → Bool
in_storage versions storage_id version_id =
    is_some (find (λ w. w.id == version_id && w.storage_id == storage_id) versions)

abbrev pub is_usable : List Version → ℕ → Block → Bool
is_usable versions storage_id b = b.is_valid && in_storage versions storage_id b.version_id

unfoldable pub get_block_by_checksum : Version → Text → Database → Option Block
get_block_by_checksum v checksum db =
    find (λ b. maybe_eq b.checksum checksum && is_usable db.versions v.storage_id b) db.blocks

-- `remove`: the uids of the blocks become candidates for deletion, and the blocks go with the
-- version.
abbrev pub deleted_of : Version → ℕ → List Block → List DeletedBlock
deleted_of v now [] = []
deleted_of v now (b ∷ bs) =
    let rest = deleted_of v now bs in
    elim b.uid [
      | none ↦ rest
      | some uid ↦ record { storage_id = v.storage_id; uid = uid; date = now } ∷ rest
    ]

unfoldable pub remove : Version → ℕ → Database → Database
remove v now db = record {
  versions = filter (λ w. not (w.id == v.id)) db.versions;
  blocks = filter (λ b. not (b.version_id == v.id)) db.blocks;
  deleted_blocks =
      db.deleted_blocks ++ deleted_of v now (filter (λ b. b.version_id == v.id) db.blocks);
}
