-- ===== src/Clone.antt =====
-- `Benji.create_version` of src/benji/benji.py: the rows of a new version, from those of its base
-- version, if there is one. Rows are written in work packages.
pub mod Rows
pub mod Result
pub mod Grown
pub mod Stored
use benji.Prelude.{
  ℕ, zero, suc, ◌==◌, ◌≡◌, ◌+◌, ◌-◌, ◌*◌, Bool, ◌&&◌, ◌||◌, not, true, false, Option, none, some,
  List, [], ◌∷◌, ◌++◌, map, Text, if◌then◌else◌, ltb, length, range_from,
}
use benji.Database.{
  block_length, Version, Block, data_block, get_block_by_idx, blocks_count, create_blocks,
}

-- `next(old_blocks_iter, None)`, which is the base version's block with the index, since all blocks come
-- in order.
abbrev pub old_block : Option Version → ℕ → List Block → Option Block
old_block none idx blocks = none
old_block (some base) idx blocks =
    if ltb idx (blocks_count base) then some (get_block_by_idx base idx blocks) else none

-- What a block takes from the base version.
abbrev pub taken_block : Version → ℕ → Option Block → Block
taken_block v idx none = data_block v idx none none v.block_size true
taken_block v idx (some old) = data_block v idx old.uid old.checksum old.size old.is_valid

-- One round of the loop: a block that changes its size loses its data, and is to be read again.
unfoldable pub new_block : Version → ℕ → Option Block → Block
new_block v idx old =
    let taken = taken_block v idx old in
    if taken.size == block_length v idx
    then taken
    else data_block v idx none none (block_length v idx) false

-- The rest of the loop, with the work package so far, and what follows it.
unfoldable pub create_packages :
    Version → Option Version → List Block → ℕ → List ℕ → List Block → List Block → List Block
create_packages v base old work_package [] work blocks = create_blocks v work blocks
create_packages v base old work_package (idx ∷ rest) work blocks =
    let filled = work ++ new_block v idx (old_block base idx old) ∷ [] in
    let written = create_packages v base old work_package rest [] (create_blocks v filled blocks) in
    let kept = create_packages v base old work_package rest filled blocks in
    if length filled == work_package then written else kept

-- The blocks of the tables with those of the new version.
unfoldable pub create_version : Version → Option Version → ℕ → List Block → List Block
create_version v base work_package blocks =
    create_packages v base blocks work_package (range_from 0 (blocks_count v)) [] blocks
