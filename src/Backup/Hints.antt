-- ===== src/Backup/Hints.antt =====
-- `_blocks_from_hints` of src/benji/benji.py: which blocks a backup reads, and which it takes as sparse,
-- from hints as tuples of offset, length and whether there is data.
use native.Mathlib.Nat.{div-lt_iff_lt-mul, le-div_iff_mul-le, div-add-mod', mul-mod_left}
use benji.Prelude.{
  ℕ, ◌==◌, ◌≡◌, ◌+◌, ◌-◌, ◌*◌, ◌/◌, ◌%◌, ◌≤◌, ◌<◌, ◌↔◌, refl, ◌∙◌, Bool, ◌&&◌, ◌||◌, not, List, [],
  ◌∷◌, ◌++◌, arith, if◌then◌else◌, contains, contains-append, any, Bool-cases, inl, inr, ltb, leb,
  range_from, contains-range_from,
}

pub record Hint : Type 0 where
  pub offset : ℕ
  pub length : ℕ
  pub exists : Bool

-- `offset // block_size`
abbrev pub start_block : ℕ → Hint → ℕ
start_block block_size h = h.offset / block_size

-- `end_block + 1`; the end block is -1 where offset and length are 0.
abbrev pub stop_block : ℕ → Hint → ℕ
stop_block block_size h =
    let end_block = (h.offset + h.length - 1) / block_size in
    if h.offset + h.length == 0 then 0 else end_block + 1

-- `range(start_block, end_block + 1)`
abbrev pub block_range : ℕ → Hint → List ℕ
block_range block_size h =
    range_from (start_block block_size h) (stop_block block_size h - start_block block_size h)

abbrev pub partial_blocks : ℕ → Hint → List ℕ
partial_blocks block_size h =
    (if ltb 0 (h.offset % block_size) then start_block block_size h ∷ [] else [])
    ++ (if ltb 0 ((h.offset + h.length) % block_size)
        then (h.offset + h.length - 1) / block_size ∷ []
        else [])

-- The sets as lists, whose order means nothing.
unfoldable pub read_blocks : ℕ → List Hint → List ℕ
read_blocks block_size [] = []
read_blocks block_size (h ∷ hints) =
    (if h.exists then block_range block_size h else partial_blocks block_size h)
    ++ read_blocks block_size hints

unfoldable pub sparse_blocks : ℕ → List Hint → List ℕ
sparse_blocks block_size [] = []
sparse_blocks block_size (h ∷ hints) =
    (if h.exists then [] else block_range block_size h) ++ sparse_blocks block_size hints

-- The hint ends after the block starts, and starts before the block ends.
abbrev pub touches : ℕ → ℕ → Hint → Bool
touches block_size k h =
    ltb h.offset ((k + 1) * block_size) && ltb (k * block_size) (h.offset + h.length)

-- The hint covers the whole block.
abbrev pub covers : ℕ → ℕ → Hint → Bool
covers block_size k h =
    leb h.offset (k * block_size) && leb ((k + 1) * block_size) (h.offset + h.length)

-- Blocks below and above, in bytes.
div-leb :
    (block_size a k : ℕ) → 0 < block_size → leb (a / block_size) k ≡ ltb a ((k + 1) * block_size)
div-leb block_size a k pos =
    let (up, down) : (a / block_size < k + 1) ↔ (a < (k + 1) * block_size) =
      div-lt_iff_lt-mul pos in
    ground (arith, up, down)

contains-block_range :
    (block_size k : ℕ) (h : Hint)
    → 0 < block_size
    → contains (block_range block_size h) k ≡ touches block_size k h
contains-block_range block_size k h pos =
    let a = h.offset in
    let b = h.offset + h.length in
    let (up, down) : (a / block_size < k + 1) ↔ (a < (k + 1) * block_size) =
      div-lt_iff_lt-mul pos in
    let (up', down') : (k ≤ (b - 1) / block_size) ↔ (k * block_size ≤ b - 1) =
      le-div_iff_mul-le pos in
    let inside =
      contains-range_from (start_block block_size h)
        (stop_block block_size h - start_block block_size h) k in
    inside ∙ ground (arith, up, down, up', down')

-- An offset inside of a block, and not at its start.
inside_block :
    (block_size a k : ℕ)
    → 0 < block_size
    → (ltb 0 (a % block_size) && k == a / block_size)
      ≡ (ltb (k * block_size) a && ltb a ((k + 1) * block_size))
inside_block block_size a k pos =
    let (up, down) : (a / block_size < k + 1) ↔ (a < (k + 1) * block_size) =
      div-lt_iff_lt-mul pos in
    let (up', down') : (k ≤ a / block_size) ↔ (k * block_size ≤ a) = le-div_iff_mul-le pos in
    let at_start : k ≡ a / block_size → k * block_size + a % block_size ≡ a =
      λ e. rw e (div-add-mod' a block_size) in
    ground (arith, up, down, up', down', at_start)

-- The same with the block of the byte before.
inside_block_end :
    (block_size b k : ℕ)
    → 0 < block_size
    → (ltb 0 (b % block_size) && k == (b - 1) / block_size)
      ≡ (ltb (k * block_size) b && ltb b ((k + 1) * block_size))
inside_block_end block_size b k pos =
    let (up, down) : ((b - 1) / block_size < k + 1) ↔ (b - 1 < (k + 1) * block_size) =
      div-lt_iff_lt-mul pos in
    let (up', down') : (k ≤ (b - 1) / block_size) ↔ (k * block_size ≤ b - 1) =
      le-div_iff_mul-le pos in
    let whole : (k + 1) * block_size ≡ b → b % block_size ≡ 0 =
      λ e. rw (← e) (mul-mod_left (k + 1) block_size) in
    let start : k * block_size ≡ b → b % block_size ≡ 0 =
      λ e. rw (← e) (mul-mod_left k block_size) in
    let least = inside_block block_size b k pos in
    ground (arith, up, down, up', down', whole, start, least)

-- A hint that starts or ends inside of a block, but not at its edge, has it read.
contains-partial_blocks :
    (block_size k : ℕ) (h : Hint)
    → 0 < block_size
    → contains (partial_blocks block_size h) k
      ≡ (touches block_size k h && not (covers block_size k h))
contains-partial_blocks block_size k h pos =
    let starts = inside_block block_size h.offset k pos in
    let ends = inside_block_end block_size (h.offset + h.length) k pos in
    ground (arith, starts, ends)

-- The hint has the block read, and has it taken as sparse.
abbrev pub has_read : ℕ → ℕ → Hint → Bool
has_read block_size k h = touches block_size k h && (h.exists || not (covers block_size k h))

abbrev pub has_sparse : ℕ → ℕ → Hint → Bool
has_sparse block_size k h = touches block_size k h && not h.exists

module _ (block_size k : ℕ) (pos : 0 < block_size) where
  read_of_hint :
      (h : Hint)
      → contains (if h.exists then block_range block_size h else partial_blocks block_size h) k
        ≡ has_read block_size k h
  read_of_hint h = elim (Bool-cases h.exists) [
    | inl e ↦ rw e (contains-block_range block_size k h pos ∙ ground arith)
    | inr e ↦ rw e (contains-partial_blocks block_size k h pos)
  ]

  sparse_of_hint :
      (h : Hint)
      → contains (if h.exists then [] else block_range block_size h) k ≡ has_sparse block_size k h
  sparse_of_hint h = elim (Bool-cases h.exists) [
    | inl e ↦ rw e (ground arith)
    | inr e ↦ rw e (contains-block_range block_size k h pos ∙ ground arith)
  ]

  pub contains-read_blocks :
      (hints : List Hint)
      → contains (read_blocks block_size hints) k ≡ any (has_read block_size k) hints
  unfolding read_blocks
  contains-read_blocks [] = refl
  contains-read_blocks (h ∷ hints) =
      contains-append (if h.exists then block_range block_size h else partial_blocks block_size h)
        (read_blocks block_size hints) k
      ∙ rw (read_of_hint h, contains-read_blocks hints) refl

  pub contains-sparse_blocks :
      (hints : List Hint)
      → contains (sparse_blocks block_size hints) k ≡ any (has_sparse block_size k) hints
  unfolding sparse_blocks
  contains-sparse_blocks [] = refl
  contains-sparse_blocks (h ∷ hints) =
      contains-append (if h.exists then [] else block_range block_size h)
        (sparse_blocks block_size hints) k
      ∙ rw (sparse_of_hint h, contains-sparse_blocks hints) refl

-- For a block size that is not 0, a block is to be read if and only if a hint touches it that says
-- there is data, or one that says there is none and does not cover all of the block; and it is taken
-- as sparse, unless it is read, if and only if a hint touches it that says there is no data.
pub blocks_from_hints :
    (block_size k : ℕ) (hints : List Hint)
    → 0 < block_size
    → (contains (read_blocks block_size hints) k ≡ any (has_read block_size k) hints)
      × (contains (sparse_blocks block_size hints) k ≡ any (has_sparse block_size k) hints)
blocks_from_hints block_size k hints pos =
    (contains-read_blocks block_size k pos hints, contains-sparse_blocks block_size k pos hints)
