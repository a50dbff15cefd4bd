-- ===== src/Database/Blocks.antt =====
-- What the operations on the table of blocks leave in it.
use benji.Prelude.{
  ℕ, ◌==◌, ◌≡◌, refl, Bool, ◌&&◌, not, true, none, some, List, [], ◌∷◌, ◌++◌, arith, is_some,
  if◌then◌else◌, filter, find, All, All-append, if_either, Bool-cases, Option-cases, inl, inr,
}
use benji.Database.{
  Version, Block, is_row, row, sparse_block, get_block_by_idx, delete_row, update_row, set_block,
}

-- A row that is found has what all rows have.
pub All-find {ℓ} :
    {A : Type ℓ} (P : A → Type 0) (p : A → Bool) (xs : List A) (x : A)
    → All P xs
    → find p xs ≡ some x
    → P x × (p x ≡ true)
All-find P p [] x h f = cc
All-find P p (y ∷ ys) x (q, h) f = elim (Bool-cases (p y)) [
  | inl e ↦
      let same : y ≡ x = ground arith in let there : P y × (p y ≡ true) = (q, e) in rw same at there
  | inr e ↦ All-find P p ys x h (ground arith)
]

pub All-filter {ℓ} :
    {A : Type ℓ} (P : A → Type 0) (p : A → Bool) (xs : List A) → All P xs → All P (filter p xs)
All-filter P p [] h = tt
All-filter P p (x ∷ xs) (q, h) = elim (Bool-cases (p x)) [
  | inl e ↦ rw e (q, All-filter P p xs h)
  | inr e ↦ rw e (All-filter P p xs h)
]

All-update_row :
    (P : Block → Type 0) (new : Block) (bs : List Block)
    → P new
    → All P bs
    → All P (update_row new bs)
All-update_row P new [] n h = tt
All-update_row P new (b ∷ bs) n (q, h) = (
  if_either P (is_row new.version_id new.idx b) new b (λ _. n) (λ _. q),
  All-update_row P new bs n h,
)

-- Every row of the table is an old one, or the new one.
pub All-set_block :
    (P : Block → Type 0) (v : Version) (new : Block) (bs : List Block)
    → P new
    → All P bs
    → All P (set_block v new bs)
unfolding set_block
All-set_block P v new bs n h =
    let is_sparse = not (is_some new.uid) && new.size == v.block_size in
    if_either (All P) (is_some (row v.id new.idx bs))
      (if is_sparse then delete_row v.id new.idx bs else update_row new bs)
      (if is_sparse then bs else bs ++ new ∷ [])
      (λ _.
        if_either (All P) is_sparse (delete_row v.id new.idx bs) (update_row new bs)
          (λ _. All-filter P (λ b. not (is_row v.id new.idx b)) bs h)
          (λ _. All-update_row P new bs n h))
      (λ _.
        if_either (All P) is_sparse bs (bs ++ new ∷ []) (λ _. h)
          (λ _. All-append P bs (new ∷ []) h (n, tt)))

row-delete_row :
    (version_id i k : ℕ) (bs : List Block)
    → row version_id k (delete_row version_id i bs) ≡ (if k == i then none else row version_id k bs)
row-delete_row version_id i k [] = ground arith
row-delete_row version_id i k (b ∷ bs) = ground (arith, row-delete_row version_id i k bs)

row-update_row :
    (new : Block) (k : ℕ) (bs : List Block)
    → row new.version_id k (update_row new bs) ≡ (
        if k == new.idx
        then if is_some (row new.version_id k bs) then some new else none
        else row new.version_id k bs)
row-update_row new k [] = ground arith
row-update_row new k (b ∷ bs) = ground (arith, row-update_row new k bs)

pub row-append :
    (version_id k : ℕ) (xs ys : List Block)
    → row version_id k (xs ++ ys)
      ≡ (if is_some (row version_id k xs) then row version_id k xs else row version_id k ys)
row-append version_id k [] ys = refl
row-append version_id k (x ∷ xs) ys = ground (arith, row-append version_id k xs ys)

-- What `set_block` leaves for each block of the version.
pub get_block_by_idx-set_block :
    (v : Version) (new : Block) (k : ℕ) (bs : List Block)
    → new.version_id ≡ v.id
    → get_block_by_idx v k (set_block v new bs) ≡ (
        if k == new.idx
        then if not (is_some new.uid) && new.size == v.block_size then sparse_block v k else new
        else get_block_by_idx v k bs)
unfolding get_block_by_idx set_block
get_block_by_idx-set_block v new k bs h =
    let deleted = row-delete_row v.id new.idx k bs in
    let updated = row-update_row new k bs in
    let added = row-append v.id k bs (new ∷ []) in ground (arith, deleted, updated, added)

All-trivial {ℓ} : {A : Type ℓ} (xs : List A) → All (λ x. Unit {0}) xs
All-trivial [] = tt
All-trivial (x ∷ xs) = (tt, All-trivial xs)

pub get_block_by_idx_key :
    (v : Version) (k : ℕ) (bs : List Block)
    → ((get_block_by_idx v k bs).idx ≡ k) × ((get_block_by_idx v k bs).version_id ≡ v.id)
unfolding get_block_by_idx
get_block_by_idx_key v k bs = elim (Option-cases (row v.id k bs)) [
  | inl e ↦ ground arith
  | inr (b, e) ↦
      let there = (All-find (λ c. Unit {0}) (is_row v.id k) bs b (All-trivial bs) e).1 in
      ground (arith, e)
]
