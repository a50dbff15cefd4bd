-- ===== src/Retention/Falling.antt =====
-- Versions from the youngest to the oldest, as the retention filter sorts them.
use benji.Prelude.{
  drop, ℕ, zero, suc, ◌≤◌, ◌≡◌, refl, true, List, [], ◌∷◌, ◌++◌, arith, leb, Option-cases, inl, inr,
  ◌⊎◌, All, All-append, All-split, All-map, Any, if_either,
}
use benji.Prelude.Int.{ℤ, pos, negsuc}
use benji.Retention.{
  Period, latest, Rules, Version, period_eq, lookup, hours, days, weeks, months, years,
}
use benji.Retention.Timedelta.{Wall}
use benji.Retention.Filter.{int_eq, insert, sort, last, considered}

-- From the youngest to the oldest.
abbrev pub IsOlder : Version → Version → Type 0
IsOlder v w = w.date ≤ v.date

abbrev pub IsFalling : List Version → Type 0
IsFalling [] = Unit
IsFalling (v ∷ vs) = All (IsOlder v) vs × IsFalling vs

All-insert :
    (P : Version → Type 0) (v : Version) (xs : List Version) → P v → All P xs → All P (insert v xs)
All-insert P v [] p h = (p, tt)
All-insert P v (x ∷ xs) p (q, h) =
    if_either (All P) (leb x.date v.date) (v ∷ x ∷ xs) (x ∷ insert v xs) (λ _. (p, (q, h)))
      (λ _. (q, All-insert P v xs p h))

insert-IsFalling : (v : Version) (xs : List Version) → IsFalling xs → IsFalling (insert v xs)
insert-IsFalling v [] h = (tt, tt)
insert-IsFalling v (x ∷ xs) (h, k) =
    if_either IsFalling (leb x.date v.date) (v ∷ x ∷ xs) (x ∷ insert v xs)
      (λ e.
        let le : x.date ≤ v.date = ground arith in
        ((le, All-map xs (λ y l. omega (arith, l, le)) h), (h, k)))
      (λ e.
        let le : v.date ≤ x.date = ground arith in
        (All-insert (IsOlder x) v xs le h, insert-IsFalling v xs k))

pub sort-IsFalling : (vs : List Version) → IsFalling (sort vs)
unfolding sort
sort-IsFalling [] = tt
sort-IsFalling (v ∷ vs) = insert-IsFalling v (sort vs) (sort-IsFalling vs)

pub drop-IsFalling : (n : ℕ) (vs : List Version) → IsFalling vs → IsFalling (drop n vs)
drop-IsFalling zero vs h = h
drop-IsFalling (suc n) [] h = tt
drop-IsFalling (suc n) (v ∷ vs) (h, k) = drop-IsFalling n vs k

pub IsFalling-without :
    (vs : List Version) (v : Version) (rest : List Version)
    → IsFalling (vs ++ v ∷ rest)
    → IsFalling (vs ++ rest)
IsFalling-without [] v rest (h, k) = k
IsFalling-without (w ∷ vs) v rest (h, k) =
    let (before, (_, behind)) = All-split (IsOlder w) vs (v ∷ rest) h in
    (All-append (IsOlder w) vs rest before behind, IsFalling-without vs v rest k)

pub int_eq_sound : (m n : ℤ) → int_eq m n ≡ true → m ≡ n
int_eq_sound (pos m) (pos n) h = ground arith
int_eq_sound (pos m) (negsuc n) h = cc
int_eq_sound (negsuc m) (pos n) h = cc
int_eq_sound (negsuc m) (negsuc n) h = ground arith

pub period_eq_sound : (p q : Period) → period_eq p q ≡ true → p ≡ q
period_eq_sound hours hours h = refl
period_eq_sound days days h = refl
period_eq_sound weeks weeks h = refl
period_eq_sound months months h = refl
period_eq_sound years years h = refl
period_eq_sound _ _ h = cc

pub All-last :
    (P : Version → Type 0) (v : Version) (vs : List Version)
    → All P (v ∷ vs)
    → Any P (last (v ∷ vs))
All-last P v [] (p, h) = inl p
All-last P v (w ∷ vs) (p, h) = All-last P w vs h

pub All-both :
    (P Q : Version → Type 0) (vs : List Version) → All P vs → All Q vs → All (λ v. P v × Q v) vs
All-both P Q [] h k = tt
All-both P Q (v ∷ vs) (p, h) (q, k) = ((p, q), All-both P Q vs h k)

pub All-either :
    (P Q : Version → Type 0) (xs ys : List Version)
    → All P xs
    → All Q ys
    → All (λ v. P v ⊎ Q v) (xs ++ ys)
All-either P Q xs ys h k =
    All-append (λ v. P v ⊎ Q v) xs ys (All-map xs (λ v p. inl p) h) (All-map ys (λ v q. inr q) k)

pub considered-IsFalling :
    (wall : ℕ → Wall) (reference : ℕ) (rules : Rules) (vs : List Version)
    → IsFalling (considered wall reference rules vs)
considered-IsFalling wall reference rules vs = elim (Option-cases (lookup latest rules)) [
  | inl e ↦ ground (arith, sort-IsFalling vs)
  | inr (n, e) ↦ ground (arith, drop-IsFalling n (sort vs) (sort-IsFalling vs))
]
