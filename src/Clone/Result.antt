-- ===== src/Clone/Result.antt =====
-- What a new version takes from its base version.
use benji.Prelude.{
  ℕ, ◌==◌, ◌≡◌, ◌<◌, sym, ap, ◌∙◌, Bool, ◌||◌, not, false, Option, none, some, List, arith, Text,
  if◌then◌else◌, is_some, All-range,
}
use benji.Storage.Uid.{BlockUid}
use benji.Database.{
  Version, Block, Database, data_block, get_block_by_idx, blocks_count, block_length, is_stored,
  row, sparse_block,
}
use benji.Database.Blocks.{get_block_by_idx_key}
use benji.Backup.Hinted.{IsSized}
use benji.Clone.{old_block, new_block, create_version}
use benji.Clone.Rows.{get_block_by_idx-create_version}

-- A block as the tables give it: one that has no uid and the full size has no row.
abbrev pub as_found : Version → ℕ → Option BlockUid → Option Text → ℕ → Bool → Block
as_found v k uid checksum size is_valid =
    if is_some uid || not (size == v.block_size)
    then data_block v k uid checksum size is_valid
    else sparse_block v k

-- What the new version is to have: the block of the base version, if it has the size for its place; else
-- no data, and it is to be read again, unless the full size makes it sparse.
abbrev pub inherited_block : Version → ℕ → Option Block → Block
inherited_block v k (some old) =
    if old.size == block_length v k
    then as_found v k old.uid old.checksum old.size old.is_valid
    else as_found v k none none (block_length v k) false
inherited_block v k none = as_found v k none none (block_length v k) false

new_block-found :
    (v : Version) (k : ℕ) (o : Option Block)
    → (if is_stored v (new_block v k o) then new_block v k o else sparse_block v k)
      ≡ inherited_block v k o
unfolding new_block
new_block-found v k none = ground arith
new_block-found v k (some old) = ground arith

-- Each block of a new version, which has no rows before, is the one of the base version if its size is
-- right for its place. Any other has no data: it is to be read again if it is shorter than a full block,
-- and it is a sparse block, and valid, if it is a full one. The size of the work packages does not
-- matter.
pub created_block :
    (v : Version) (base : Option Version) (work_package : ℕ) (blocks : List Block) (k : ℕ)
    → k < blocks_count v
    → row v.id k blocks ≡ none
    → get_block_by_idx v k (create_version v base work_package blocks)
      ≡ inherited_block v k (old_block base k blocks)
unfolding create_version
created_block v base work_package blocks k in_range fresh =
    get_block_by_idx-create_version v base work_package blocks blocks k in_range fresh
    ∙ new_block-found v k (old_block base k blocks)

-- A block that is shorter in the base version, and that is a full one in the new version, is valid there,
-- and it has lost its data.
pub grown-is_sparse :
    (v base : Version) (work_package : ℕ) (blocks : List Block) (k : ℕ)
    → k < blocks_count v
    → k < blocks_count base
    → row v.id k blocks ≡ none
    → (get_block_by_idx base k blocks).size < v.block_size
    → block_length v k ≡ v.block_size
    → get_block_by_idx v k (create_version v (some base) work_package blocks) ≡ sparse_block v k
grown-is_sparse v base work_package blocks k in_range in_base fresh shorter full =
    let found : old_block (some base) k blocks ≡ some (get_block_by_idx base k blocks) =
      ground arith in
    let inherited : inherited_block v k (some (get_block_by_idx base k blocks)) ≡ sparse_block v k =
      ground arith in
    created_block v (some base) work_package blocks k in_range fresh
    ∙ ap (inherited_block v k) found
    ∙ inherited

inherited-size :
    (v : Version) (k : ℕ) (o : Option Block) → (inherited_block v k o).size ≡ block_length v k
inherited-size v k none = ground arith
inherited-size v k (some old) = ground arith

-- Every block of a new version, which has no rows before, has the size that its place gives it.
pub create_version-IsSized :
    (v : Version) (base : Option Version) (work_package : ℕ) (db : Database)
    → ((k : ℕ) → k < blocks_count v → row v.id k db.blocks ≡ none)
    → IsSized v (record db { blocks = create_version v base work_package db.blocks })
create_version-IsSized v base work_package db fresh =
    let blocks = create_version v base work_package db.blocks in
    All-range _ (λ k. get_block_by_idx v k blocks) (blocks_count v)
      (λ k in_range.
        let key = (get_block_by_idx_key v k blocks).0 in
        ap (λ b. b.size) (created_block v base work_package db.blocks k in_range (fresh k in_range))
        ∙ inherited-size v k (old_block base k db.blocks)
        ∙ ap (block_length v) (sym key))
