-- ===== src/Prelude/Lists.antt =====
-- Lists of nodes and of anything else, over the native numbers.
use Prim.Native.Nat.{ℕ, zero, suc, ◌+◌, ◌-◌, ◌≤◌, ◌<◌}
use mathlib.Core.Path.{◌≡◌, refl, ap, ◌∙◌}
use mathlib.Core.Logic.{◌⊎◌, inl, inr}
use mathlib.Core.Bool.{Bool, true, false, ◌&&◌, ◌||◌}
use mathlib.Core.Option.{Option, none, some}
use mathlib.Core.List.{List, [], ◌∷◌, ◌++◌, map}
use native.Mathlib.Omega.{arith}
use benji.Prelude.Tests.{◌==◌, ==_refl, ==_iff, if◌then◌else◌, leb, ltb, Bool-cases}

module _ {ℓ} {A : Type ℓ} where
  abbrev pub length : List A → ℕ
  length [] = 0
  length (x ∷ xs) = suc (length xs)

  abbrev pub any : (A → Bool) → List A → Bool
  any p [] = false
  any p (x ∷ xs) = p x || any p xs

  abbrev pub filter : (A → Bool) → List A → List A
  filter p [] = []
  filter p (x ∷ xs) = let rest = filter p xs in if p x then x ∷ rest else rest

  abbrev pub find : (A → Bool) → List A → Option A
  find p [] = none
  find p (x ∷ xs) = let rest = find p xs in if p x then some x else rest

  -- Slices `xs[:n]` and `xs[n:]`.
  abbrev pub take : ℕ → List A → List A
  take zero xs = []
  take (suc n) [] = []
  take (suc n) (x ∷ xs) = x ∷ take n xs

  abbrev pub drop : ℕ → List A → List A
  drop zero xs = xs
  drop (suc n) [] = []
  drop (suc n) (x ∷ xs) = drop n xs

  -- How many elements pass a test.
  abbrev pub count : (A → Bool) → List A → ℕ
  count p [] = 0
  count p (x ∷ xs) = (if p x then 1 else 0) + count p xs

  pub count-append : (p : A → Bool) (xs ys : List A) → count p (xs ++ ys) ≡ count p xs + count p ys
  count-append p [] ys = omega arith
  count-append p (x ∷ xs) ys = omega (arith, count-append p xs ys)

  abbrev pub replicate : ℕ → A → List A
  replicate zero x = []
  replicate (suc n) x = x ∷ replicate n x

  pub length-append : (xs ys : List A) → length (xs ++ ys) ≡ length xs + length ys
  length-append [] ys = omega arith
  length-append (x ∷ xs) ys = omega (arith, length-append xs ys)

module _ {ℓ κ} {A : Type ℓ} {B : Type κ} where
  pub length-map : (xs : List A) (f : A → B) → length (map f xs) ≡ length xs
  length-map [] f = refl
  length-map (x ∷ xs) f = ap suc (length-map xs f)

module _ {ℓ κ} {A : Type ℓ} (P : A → Type κ) where
  abbrev pub All : List A → Type κ
  All [] = Unit
  All (x ∷ xs) = P x × All xs

  pub All-append : (xs ys : List A) → All xs → All ys → All (xs ++ ys)
  All-append [] ys h k = k
  All-append (x ∷ xs) ys (p, h) k = (p, All-append xs ys h k)

  pub All-split : (xs ys : List A) → All (xs ++ ys) → All xs × All ys
  All-split [] ys h = (tt, h)
  All-split (x ∷ xs) ys (p, h) = let (hx, hy) = All-split xs ys h in ((p, hx), hy)

module _ {ℓ κ} {A : Type ℓ} {P Q : A → Type κ} where
  pub All-map : (xs : List A) → ((x : A) → P x → Q x) → All P xs → All Q xs
  All-map [] f h = tt
  All-map (x ∷ xs) f (p, h) = (f x p, All-map xs f h)

module _ {ℓ κ} {A : Type ℓ} (P Q : A → Type κ) where
  pub All-both : (xs : List A) → All P xs → All Q xs → All (λ x. P x × Q x) xs
  All-both [] hp hq = tt
  All-both (x ∷ xs) (p, hp) (q, hq) = ((p, q), All-both xs hp hq)

-- Some element of a list has a property.
module _ {ℓ} {A : Type ℓ} (P : A → Type 0) where
  abbrev pub Any : List A → Type 0
  Any [] = ⊥
  Any (x ∷ xs) = P x ⊎ Any xs

  pub Any-left : (xs ys : List A) → Any xs → Any (xs ++ ys)
  Any-left [] ys h = elim h [ ]
  Any-left (x ∷ xs) ys (inl p) = inl p
  Any-left (x ∷ xs) ys (inr h) = inr (Any-left xs ys h)

  pub Any-right : (xs ys : List A) → Any ys → Any (xs ++ ys)
  Any-right [] ys h = h
  Any-right (x ∷ xs) ys h = inr (Any-right xs ys h)

-- `range(start, start + n)`
abbrev pub range_from : ℕ → ℕ → List ℕ
range_from start zero = []
range_from start (suc n) = start ∷ range_from (start + 1) n

abbrev pub contains : List ℕ → ℕ → Bool
contains [] e = false
contains (x ∷ xs) e = e == x || contains xs e

-- Every occurrence of a number goes.
abbrev pub remove : ℕ → List ℕ → List ℕ
remove e [] = []
remove e (x ∷ xs) = let rest = remove e xs in if e == x then rest else x ∷ rest

abbrev pub IsNodup : List ℕ → Type 0
IsNodup [] = Unit
IsNodup (x ∷ xs) = (contains xs x ≡ false) × IsNodup xs

pub contains-append :
    (xs ys : List ℕ) (e : ℕ) → contains (xs ++ ys) e ≡ (contains xs e || contains ys e)
contains-append [] ys e = refl
contains-append (x ∷ xs) ys e = ground (arith, contains-append xs ys e)

pub remove_absent : (e : ℕ) (xs : List ℕ) → contains xs e ≡ false → remove e xs ≡ xs
remove_absent e [] h = refl
remove_absent e (x ∷ xs) h = ground (arith, remove_absent e xs)

pub remove-append : (e : ℕ) (xs ys : List ℕ) → remove e (xs ++ ys) ≡ remove e xs ++ remove e ys
remove-append e [] ys = refl
remove-append e (x ∷ xs) ys = ground (arith, remove-append e xs ys)

pub contains-remove :
    (e : ℕ) (xs : List ℕ) (x : ℕ)
    → contains (remove e xs) x ≡ (if x == e then false else contains xs x)
contains-remove e [] x = ground arith
contains-remove e (y ∷ xs) x = ground (arith, contains-remove e xs x)

pub remove_again : (e : ℕ) (xs : List ℕ) → remove e (e ∷ remove e xs) ≡ remove e xs
remove_again e xs =
    let gone : contains (remove e xs) e ≡ false = contains-remove e xs e ∙ rw ==_refl in
    rw ==_refl (remove_absent e (remove e xs) gone)

pub contains-range_from :
    (start n k : ℕ) → contains (range_from start n) k ≡ (leb start k && ltb k (start + n))
contains-range_from start zero k = ground arith
contains-range_from start (suc n) k = ground (arith, contains-range_from (start + 1) n k)

-- What holds for all of a range, and for one of it.
module _ {ℓ κ} {A : Type ℓ} (P : A → Type κ) (f : ℕ → A) where
  All-range_from :
      (start n : ℕ)
      → ((k : ℕ) → start ≤ k → k < start + n → P (f k))
      → All P (map f (range_from start n))
  All-range_from start zero h = tt
  All-range_from start (suc n) h = (
    h start (omega arith) (omega arith),
    All-range_from (start + 1) n (λ k low high. h k (omega arith) (omega arith)),
  )

  range_from-All :
      (start n k : ℕ) → start ≤ k → k < start + n → All P (map f (range_from start n)) → P (f k)
  range_from-All start zero k low high h = absurd (omega arith)
  range_from-All start (suc n) k low high (p, h) = elim (Bool-cases (start == k)) [
    | inl e ↦ let same : start ≡ k = (==_iff start k).0 e in rw (← same) p
    | inr e ↦
        let above : start + 1 ≤ k = ground arith in
        range_from-All (start + 1) n k above (omega arith) h
  ]

  pub All-range : (n : ℕ) → ((k : ℕ) → k < n → P (f k)) → All P (map f (range_from 0 n))
  All-range n h = All-range_from 0 n (λ k low high. h k (omega arith))

  pub range-All : (n k : ℕ) → k < n → All P (map f (range_from 0 n)) → P (f k)
  range-All n k h = range_from-All 0 n k (omega arith) (omega arith)

pub uncons {ℓ} :
    {A : Type ℓ} (xs : List A) → (xs ≡ []) ⊎ ((x : A) × (rest : List A) × (xs ≡ x ∷ rest))
uncons [] = inl refl
uncons (x ∷ xs) = inr (x, xs, refl)

pub any-append {ℓ} :
    {A : Type ℓ} (p : A → Bool) (xs ys : List A) → any p (xs ++ ys) ≡ (any p xs || any p ys)
any-append p [] ys = refl
any-append p (x ∷ xs) ys = ground (arith, any-append p xs ys)

pub filter-append {ℓ} :
    {A : Type ℓ} (p : A → Bool) (xs ys : List A) → filter p (xs ++ ys) ≡ filter p xs ++ filter p ys
filter-append p [] ys = refl
filter-append p (x ∷ xs) ys = ground (arith, filter-append p xs ys)

pub any-filter {ℓ} :
    {A : Type ℓ} (p q : A → Bool) (xs : List A)
    → ((x : A) → p x ≡ true → q x ≡ true)
    → any p xs ≡ true
    → any p (filter q xs) ≡ true
any-filter p q [] keeps h = h
any-filter p q (x ∷ xs) keeps h = elim (Bool-cases (p x)) [
  | inl e ↦ let kept = keeps x e in ground (arith, kept)
  | inr e ↦ let rest = any-filter p q xs keeps in ground (arith, rest)
]

pub length-drop {ℓ} : {A : Type ℓ} (n : ℕ) (xs : List A) → length (drop n xs) ≡ length xs - n
length-drop zero xs = omega arith
length-drop (suc n) [] = omega arith
length-drop (suc n) (x ∷ xs) = omega (arith, length-drop n xs)

pub length-take {ℓ} : {A : Type ℓ} (n : ℕ) (xs : List A) → n ≤ length xs → length (take n xs) ≡ n
length-take zero xs h = refl
length-take (suc n) [] h = absurd (omega arith)
length-take (suc n) (x ∷ xs) h = omega (arith, length-take n xs (omega arith))
