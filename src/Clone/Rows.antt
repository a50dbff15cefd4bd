-- ===== src/Clone/Rows.antt =====
-- What the rows of a new version say.
use benji.Prelude.{
  filter-append, ℕ, zero, suc, ◌==◌, ◌≡◌, ◌+◌, ◌<◌, sym, ap, ◌∙◌, ◌&&◌, Option, none, some, List,
  [], ◌∷◌, ◌++◌, map, arith, append_assoc, append-nil, if◌then◌else◌, ltb, leb, length, filter,
  range_from, Bool-cases, inl, inr, ==_iff,
}
use benji.Database.{
  Version, Block, get_block_by_idx, blocks_count, is_stored, create_blocks, row, sparse_block,
}
use benji.Database.Blocks.{row-append}
use benji.Clone.{old_block, new_block, create_packages}

create_blocks-append :
    (v : Version) (new more blocks : List Block)
    → create_blocks v (new ++ more) blocks ≡ create_blocks v more (create_blocks v new blocks)
unfolding create_blocks
create_blocks-append v new more blocks =
    ap (λ l. blocks ++ l) (filter-append (is_stored v) new more) ∙ sym (append_assoc blocks _ _)

new_block_key :
    (v : Version) (k : ℕ) (o : Option Block)
    → ((new_block v k o).idx ≡ k) × ((new_block v k o).version_id ≡ v.id)
unfolding new_block
new_block_key v k none = ground arith
new_block_key v k (some b) = ground arith

module _ (v : Version) (base : Option Version) (work_package : ℕ) (old : List Block) where
  abbrev pub rows : List ℕ → List Block
  rows = map (λ idx. new_block v idx (old_block base idx old))

  -- Work packages make no difference.
  create_packages-rows :
      (idxs : List ℕ) (work blocks : List Block)
      → create_packages v base old work_package idxs work blocks
        ≡ create_blocks v (work ++ rows idxs) blocks
  unfolding create_packages
  create_packages-rows [] work blocks = ap (λ l. create_blocks v l blocks) (sym (append-nil work))
  create_packages-rows (idx ∷ rest) work blocks =
      let new = new_block v idx (old_block base idx old) in
      let filled = work ++ new ∷ [] in
      let whole = append_assoc work (new ∷ []) (rows rest) in
      elim (Bool-cases (length filled == work_package)) [
        | inl e ↦ rw e (
            create_packages-rows rest [] (create_blocks v filled blocks)
            ∙ sym (create_blocks-append v filled (rows rest) blocks)
            ∙ ap (λ l. create_blocks v l blocks) whole)
        | inr e ↦
            rw e
              (create_packages-rows rest filled blocks ∙ ap (λ l. create_blocks v l blocks) whole)
      ]

  pub create_version-rows :
      (blocks : List Block)
      → create_packages v base old work_package (range_from 0 (blocks_count v)) [] blocks
        ≡ create_blocks v (rows (range_from 0 (blocks_count v))) blocks
  create_version-rows blocks = create_packages-rows (range_from 0 (blocks_count v)) [] blocks

  -- A row that is left out is found as a sparse block.
  abbrev pub row_of : ℕ → Block
  row_of k = new_block v k (old_block base k old)

  row_key : (k : ℕ) → ((row_of k).idx ≡ k) × ((row_of k).version_id ≡ v.id)
  row_key k = new_block_key v k (old_block base k old)

  row-rows :
      (start n k : ℕ)
      → row v.id k (filter (is_stored v) (rows (range_from start n))) ≡ (
          if leb start k && ltb k (start + n) && is_stored v (row_of k)
          then some (row_of k)
          else none)
  row-rows start zero k = ground arith
  row-rows start (suc n) k =
      let (idx, version) = row_key start in
      let rest = row-rows (start + 1) n k in
      elim (Bool-cases (start == k)) [
        | inl e ↦
            let same : row_of start ≡ row_of k = ap row_of ((==_iff start k).0 e) in
            ground (arith, rest, same)
        | inr e ↦ ground (arith, rest)
      ]

  -- A new version has no rows before, and its block is then the one of the loop, or a sparse block if
  -- that one is left out.
  pub get_block_by_idx-create_version :
      (blocks : List Block) (k : ℕ)
      → k < blocks_count v
      → row v.id k blocks ≡ none
      → get_block_by_idx v k
          (create_packages v base old work_package (range_from 0 (blocks_count v)) [] blocks)
        ≡ (if is_stored v (row_of k) then row_of k else sparse_block v k)
  unfolding get_block_by_idx create_blocks
  get_block_by_idx-create_version blocks k in_range fresh =
      let found = row-rows 0 (blocks_count v) k in
      let both =
        row-append v.id k blocks (filter (is_stored v) (rows (range_from 0 (blocks_count v)))) in
      rw (create_version-rows blocks) (ground (arith, found, both))
