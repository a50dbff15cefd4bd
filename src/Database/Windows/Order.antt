-- ===== src/Database/Windows/Order.antt =====
-- The rows of a window in their order.
use benji.Prelude.{
  ℕ, ◌==◌, ◌≡◌, ◌+◌, ◌≤◌, ◌<◌, refl, ◌∙◌, Bool, ◌||◌, false, none, some, List, [], ◌∷◌, arith,
  if◌then◌else◌, leb, find, any, count, All, Bool-cases, inl, inr,
}
use benji.Database.{Block}
use benji.Database.Windows.{insert, order_by_idx}

abbrev pub has_idx : ℕ → Block → Bool
has_idx k b = b.idx == k

-- The indices go up from a bound on.
abbrev pub IsAscending : ℕ → List Block → Type 0
IsAscending low [] = Unit
IsAscending low (b ∷ bs) = (low ≤ b.idx) × IsAscending (b.idx + 1) bs

pub insert-IsAscending :
    (low : ℕ) (b : Block) (bs : List Block)
    → low ≤ b.idx
    → any (has_idx b.idx) bs ≡ false
    → IsAscending low bs
    → IsAscending low (insert b bs)
insert-IsAscending low b [] h absent a = (h, tt)
insert-IsAscending low b (c ∷ cs) h absent (first, rest) = elim (Bool-cases (leb b.idx c.idx)) [
  | inl e ↦ let above : b.idx + 1 ≤ c.idx = ground arith in rw e (h, (above, rest))
  | inr e ↦
      let above : c.idx + 1 ≤ b.idx = ground arith in
      rw e (first, insert-IsAscending (c.idx + 1) b cs above (ground arith) rest)
]

pub find-insert :
    (k : ℕ) (b : Block) (bs : List Block)
    → any (has_idx b.idx) bs ≡ false
    → find (has_idx k) (insert b bs) ≡ (if b.idx == k then some b else find (has_idx k) bs)
find-insert k b [] absent = refl
find-insert k b (c ∷ cs) absent = ground (arith, find-insert k b cs)

pub any-insert :
    (k : ℕ) (b : Block) (bs : List Block)
    → any (has_idx k) (insert b bs) ≡ ((b.idx == k) || any (has_idx k) bs)
any-insert k b [] = refl
any-insert k b (c ∷ cs) = ground (arith, any-insert k b cs)

pub any-order_by_idx :
    (k : ℕ) (bs : List Block) → any (has_idx k) (order_by_idx bs) ≡ any (has_idx k) bs
any-order_by_idx k [] = refl
any-order_by_idx k (b ∷ bs) =
    any-insert k b (order_by_idx bs) ∙ ground (arith, any-order_by_idx k bs)

pub count-absent : (k : ℕ) (bs : List Block) → count (has_idx k) bs ≡ 0 → any (has_idx k) bs ≡ false
count-absent k [] h = refl
count-absent k (b ∷ bs) h = ground (arith, count-absent k bs)

-- The keys of the rows of a version are unique.
abbrev pub AreDistinct : List Block → Type 0
AreDistinct bs = (k : ℕ) → count (has_idx k) bs ≤ 1

pub first_absent :
    (b : Block) (bs : List Block)
    → AreDistinct (b ∷ bs)
    → any (has_idx b.idx) (order_by_idx bs) ≡ false
first_absent b bs distinct =
    let none_left : count (has_idx b.idx) bs ≡ 0 = ground (arith, distinct b.idx) in
    any-order_by_idx b.idx bs ∙ count-absent b.idx bs none_left

pub find-order_by_idx :
    (k : ℕ) (bs : List Block)
    → AreDistinct bs
    → find (has_idx k) (order_by_idx bs) ≡ find (has_idx k) bs
find-order_by_idx k [] distinct = refl
find-order_by_idx k (b ∷ bs) distinct =
    let rest = find-order_by_idx k bs (λ i. omega (arith, distinct i)) in
    find-insert k b (order_by_idx bs) (first_absent b bs distinct) ∙ ground (arith, rest)

pub order_by_idx-IsAscending :
    (low : ℕ) (bs : List Block)
    → AreDistinct bs
    → All (λ b. low ≤ b.idx) bs
    → IsAscending low (order_by_idx bs)
order_by_idx-IsAscending low [] distinct h = tt
order_by_idx-IsAscending low (b ∷ bs) distinct (first, rest) =
    insert-IsAscending low b (order_by_idx bs) first (first_absent b bs distinct)
      (order_by_idx-IsAscending low bs (λ i. omega (arith, distinct i)) rest)

pub find-below :
    (low k : ℕ) (bs : List Block) → k < low → IsAscending low bs → find (has_idx k) bs ≡ none
find-below low k [] h a = refl
find-below low k (b ∷ bs) h (first, rest) =
    let none_later = find-below (b.idx + 1) k bs (omega arith) rest in ground (arith, none_later)
