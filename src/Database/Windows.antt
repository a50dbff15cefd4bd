-- ===== src/Database/Windows.antt =====
-- `Version.blocks` of src/benji/database.py: the blocks of a version in windows of rows, with sparse
-- blocks in place of the rows that are missing.
pub mod Order
pub mod Whole
use benji.Prelude.{
  ℕ, zero, suc, ◌==◌, ◌≡◌, ◌+◌, ◌-◌, Bool, ◌&&◌, List, [], ◌∷◌, ◌++◌, map, if◌then◌else◌, ltb, leb,
  filter, range_from,
}
use benji.Database.{Version, Block, blocks_count, sparse_block}

-- `order_by(Block.idx)`
abbrev pub insert : Block → List Block → List Block
insert b [] = b ∷ []
insert b (c ∷ cs) = let rest = insert b cs in if leb b.idx c.idx then b ∷ c ∷ cs else c ∷ rest

abbrev pub order_by_idx : List Block → List Block
order_by_idx [] = []
order_by_idx (b ∷ bs) = insert b (order_by_idx bs)

abbrev pub in_window : Version → ℕ → ℕ → Block → Bool
in_window v start stop b = b.version_id == v.id && leb start b.idx && ltb b.idx stop

-- The rows of a window, with sparse blocks before each of them and after the last.
unfoldable pub fill : Version → ℕ → ℕ → List Block → List Block
fill v idx stop [] = map (sparse_block v) (range_from idx (stop - idx))
fill v idx stop (b ∷ bs) =
    let reached = if ltb idx b.idx then b.idx else idx in
    map (sparse_block v) (range_from idx (b.idx - idx)) ++ b ∷ fill v (reached + 1) stop bs

-- The windows from one on; more fuel than there are blocks is enough.
unfoldable pub windows : Version → ℕ → ℕ → ℕ → List Block → List Block
windows v per_call zero start blocks = []
windows v per_call (suc fuel) start blocks =
    let stop =
      if ltb (start + per_call) (blocks_count v) then start + per_call else blocks_count v in
    let rest = windows v per_call fuel stop blocks in
    let here = fill v start stop (order_by_idx (filter (in_window v start stop) blocks)) in
    if stop == blocks_count v then here else here ++ rest

-- `BLOCKS_PER_CALL` is 10000.
abbrev pub iterated_blocks : Version → ℕ → List Block → List Block
iterated_blocks v per_call blocks = windows v per_call (blocks_count v + 1) 0 blocks
