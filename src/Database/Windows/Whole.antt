-- ===== src/Database/Windows/Whole.antt =====
-- The windows of a version's blocks make up all of its blocks.
use benji.Prelude.{
  ℕ, zero, suc, ◌==◌, ◌≡◌, ◌+◌, ◌-◌, ◌≤◌, ◌<◌, refl, sym, ap, ◌∙◌, false, List, [], ◌∷◌, ◌++◌, map,
  arith, if◌then◌else◌, ltb, leb, filter, find, count, range_from, All, if_either, ==_refl,
  Bool-cases, inl, inr,
}
use benji.Database.{
  all_blocks, Version, Block, blocks_count, is_row, row, sparse_block, block_or, get_block_by_idx,
}
use benji.Database.Windows.{insert, order_by_idx, in_window, fill, windows, iterated_blocks}
use benji.Database.Windows.Order.{
  has_idx, IsAscending, AreDistinct, find-order_by_idx, order_by_idx-IsAscending, find-below,
}

map-range_from_split :
    (f : ℕ → Block) (start m n : ℕ)
    → map f (range_from start (m + n))
      ≡ map f (range_from start m) ++ map f (range_from (start + m) n)
map-range_from_split f start zero n =
    let whole : zero + n ≡ n = omega arith in
    let same : start + zero ≡ start = omega arith in rw (whole, same) refl
map-range_from_split f start (suc m) n =
    let whole : suc m + n ≡ suc (m + n) = omega arith in
    let next : start + suc m ≡ start + 1 + m = omega arith in
    rw (whole, next) (ap (λ l. f start ∷ l) (map-range_from_split f (start + 1) m n))

-- A range is parted place one of its numbers.
map-range_from_at :
    (f : ℕ → Block) (low place stop : ℕ)
    → low ≤ place
    → place < stop
    → map f (range_from low (stop - low))
      ≡ map f (range_from low (place - low))
        ++ f place ∷ map f (range_from (place + 1) (stop - (place + 1)))
map-range_from_at f low place stop h under =
    let whole : stop - low ≡ (place - low) + suc (stop - (place + 1)) = omega arith in
    let back : low + (place - low) ≡ place = omega arith in
    ap (λ n. map f (range_from low n)) whole
    ∙ map-range_from_split f low (place - low) (suc (stop - (place + 1)))
    ∙ ap
        (λ i.
          map f (range_from low (place - low)) ++ map f (range_from i (suc (stop - (place + 1)))))
        back

map-range_from :
    (f g : ℕ → Block) (start n : ℕ)
    → ((k : ℕ) → start ≤ k → k < start + n → f k ≡ g k)
    → map f (range_from start n) ≡ map g (range_from start n)
map-range_from f g start zero h = refl
map-range_from f g start (suc n) h =
    let first = h start (omega arith) (omega arith) in
    let rest = map-range_from f g (start + 1) n (λ k low high. h k (omega arith) (omega arith)) in
    cc

-- A window with the rows that are found, and sparse blocks else, is all of its blocks.
fill-whole :
    (v : Version) (f : ℕ → Block) (low stop : ℕ) (bs : List Block)
    → low ≤ stop
    → IsAscending low bs
    → All (λ b. b.idx < stop) bs
    → ((k : ℕ) → low ≤ k → k < stop → f k ≡ block_or (sparse_block v k) (find (has_idx k) bs))
    → fill v low stop bs ≡ map f (range_from low (stop - low))
unfolding fill
fill-whole v f low stop [] h a below found =
    sym
      (map-range_from f (sparse_block v) low (stop - low) (λ k from to. found k from (omega arith)))
fill-whole v f low stop (b ∷ bs) h (first, rest) (under, unders) found =
    let reached : (if ltb low b.idx then b.idx else low) ≡ b.idx = ground arith in
    let before = map-range_from f (sparse_block v) low (b.idx - low) (λ k from to.
      let missing = find-below (b.idx + 1) k bs (omega arith) rest in
      found k from (omega arith) ∙ ground (arith, missing)) in
    let here : f b.idx ≡ b = found b.idx first under ∙ ground arith in
    let after =
      fill-whole v f (b.idx + 1) stop bs (omega arith) rest unders
        (λ k from to. found k (omega arith) to ∙ ground arith) in
    rw (reached, after)
      (sym (map-range_from_at f low b.idx stop first under ∙ rw (before, here) refl))

find-window :
    (v : Version) (start stop k : ℕ) (bs : List Block)
    → start ≤ k
    → k < stop
    → find (has_idx k) (filter (in_window v start stop) bs) ≡ row v.id k bs
find-window v start stop k [] from to = refl
find-window v start stop k (b ∷ bs) from to = ground (arith, find-window v start stop k bs from to)

-- The primary key of the table: a version has one row of an index.
abbrev pub AreKeyed : Version → List Block → Type 0
AreKeyed v bs = (k : ℕ) → count (is_row v.id k) bs ≤ 1

count-window :
    (v : Version) (start stop k : ℕ) (bs : List Block)
    → count (has_idx k) (filter (in_window v start stop) bs) ≤ count (is_row v.id k) bs
count-window v start stop k [] = omega arith
count-window v start stop k (b ∷ bs) = ground (arith, count-window v start stop k bs)

All-window-low :
    (v : Version) (start stop : ℕ) (bs : List Block)
    → All (λ b. start ≤ b.idx) (filter (in_window v start stop) bs)
All-window-low v start stop [] = tt
All-window-low v start stop (b ∷ bs) = elim (Bool-cases (in_window v start stop b)) [
  | inl e ↦ let above : start ≤ b.idx = ground arith in rw e (above, All-window-low v start stop bs)
  | inr e ↦ rw e (All-window-low v start stop bs)
]

All-window-high :
    (v : Version) (start stop : ℕ) (bs : List Block)
    → All (λ b. b.idx < stop) (filter (in_window v start stop) bs)
All-window-high v start stop [] = tt
All-window-high v start stop (b ∷ bs) = elim (Bool-cases (in_window v start stop b)) [
  | inl e ↦ let below : b.idx < stop = ground arith in rw e (below, All-window-high v start stop bs)
  | inr e ↦ rw e (All-window-high v start stop bs)
]

All-insert :
    (P : Block → Type 0) (b : Block) (bs : List Block) → P b → All P bs → All P (insert b bs)
All-insert P b [] p h = (p, tt)
All-insert P b (c ∷ cs) p (q, h) =
    if_either (All P) (leb b.idx c.idx) (b ∷ c ∷ cs) (c ∷ insert b cs) (λ _. (p, (q, h)))
      (λ _. (q, All-insert P b cs p h))

All-order_by_idx : (P : Block → Type 0) (bs : List Block) → All P bs → All P (order_by_idx bs)
All-order_by_idx P [] h = tt
All-order_by_idx P (b ∷ bs) (p, h) = All-insert P b (order_by_idx bs) p (All-order_by_idx P bs h)

-- What one window gives.
window-whole :
    (v : Version) (start stop : ℕ) (blocks : List Block)
    → start ≤ stop
    → AreKeyed v blocks
    → fill v start stop (order_by_idx (filter (in_window v start stop) blocks))
      ≡ map (λ k. get_block_by_idx v k blocks) (range_from start (stop - start))
unfolding get_block_by_idx
window-whole v start stop blocks h keyed =
    let rows = filter (in_window v start stop) blocks in
    let distinct : AreDistinct rows =
      λ k. omega (arith, keyed k, count-window v start stop k blocks) in
    fill-whole v (λ k. get_block_by_idx v k blocks) start stop (order_by_idx rows) h
      (order_by_idx-IsAscending start rows distinct (All-window-low v start stop blocks))
      (All-order_by_idx _ rows (All-window-high v start stop blocks))
      (λ k from to.
        ap (block_or (sparse_block v k)) (
          sym (find-window v start stop k blocks from to)
          ∙ sym (find-order_by_idx k rows distinct)))

windows-whole :
    (v : Version) (per_call fuel start : ℕ) (blocks : List Block)
    → 0 < per_call
    → AreKeyed v blocks
    → start ≤ blocks_count v
    → blocks_count v < start + fuel
    → windows v per_call fuel start blocks
      ≡ map (λ k. get_block_by_idx v k blocks) (range_from start (blocks_count v - start))
unfolding windows
windows-whole v per_call zero start blocks pos keyed low enough = absurd (omega arith)
windows-whole v per_call (suc fuel) start blocks pos keyed low enough =
    let n = blocks_count v in
    let f : ℕ → Block = λ k. get_block_by_idx v k blocks in
    elim (Bool-cases (ltb (start + per_call) n)) [
      | inl e ↦
          let more : (start + per_call == n) ≡ false = ground arith in
          let here = window-whole v start (start + per_call) blocks (omega arith) keyed in
          let back : start + per_call - start ≡ per_call = omega arith in
          let rest =
            windows-whole v per_call fuel (start + per_call) blocks pos keyed (ground arith)
              (omega arith) in
          let whole : n - start ≡ per_call + (n - (start + per_call)) = ground arith in
          rw (e, more, here, rest, back)
            (sym (
              ap (λ m. map f (range_from start m)) whole
              ∙ map-range_from_split f start per_call (n - (start + per_call))))
      | inr e ↦ rw (e, ==_refl n) (window-whole v start n blocks low keyed)
    ]

-- With unique keys, and windows that are not empty, the blocks of a version are all of its blocks in
-- order, each as its index gives it, whatever the size of the windows.
pub iterated_blocks-whole :
    (v : Version) (per_call : ℕ) (blocks : List Block)
    → 0 < per_call
    → AreKeyed v blocks
    → iterated_blocks v per_call blocks ≡ all_blocks v (blocks_count v) blocks
iterated_blocks-whole v per_call blocks pos keyed =
    windows-whole v per_call (blocks_count v + 1) 0 blocks pos keyed (omega arith) (omega arith)
    ∙ ap (λ n. map (λ k. get_block_by_idx v k blocks) (range_from 0 n)) (omega arith)
