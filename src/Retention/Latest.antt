-- ===== src/Retention/Latest.antt =====
-- The latest versions, which a policy can keep whatever their age.
use benji.Prelude.{
  take, drop, ℕ, zero, suc, ◌≤◌, ◌≡◌, refl, ◌∙◌, Bool, some, List, [], ◌∷◌, map, arith,
  if◌then◌else◌, leb, ltb, All, All-map, Any, Any-right, inl, length,
}
use benji.Prelude.Int.{pos}
use benji.Retention.{latest, Rules, Version, lookup}
use benji.Retention.Timedelta.{Wall}
use benji.Retention.Filter.{
  periods_of, insert, sort, State, reject_all, remaining_of, empty_shelf, consider_all, considered,
  latest_bucket, filter_versions,
}
use benji.Retention.Counts.{count, count-append, count-reject_all}
use benji.Retention.Total.{total-consider_all, has_shelf-matching, count-empty}
use benji.Retention.Falling.{IsOlder, IsFalling, sort-IsFalling}

abbrev pub is_younger : Version → Version → Bool
is_younger v w = ltb v.date w.date

count-younger : (v : Version) (xs : List Version) → All (IsOlder v) xs → count (is_younger v) xs ≡ 0
count-younger v [] h = refl
count-younger v (x ∷ xs) (p, h) = ground (arith, count-younger v xs h)

All-drop : (P : Version → Type 0) (n : ℕ) (xs : List Version) → All P xs → All P (drop n xs)
All-drop P zero xs h = h
All-drop P (suc n) [] h = tt
All-drop P (suc n) (x ∷ xs) (p, h) = All-drop P n xs h

take-drop :
    (n : ℕ) (xs : List Version)
    → IsFalling xs
    → All (λ v. count (is_younger v) (drop n xs) ≡ 0) (take n xs)
take-drop zero xs h = tt
take-drop (suc n) [] h = tt
take-drop (suc n) (x ∷ xs) (h, k) =
    (count-younger x (drop n xs) (All-drop (IsOlder x) n xs h), take-drop n xs k)

length-take :
    (n : ℕ) (xs : List Version) → length (take n xs) ≡ (if leb n (length xs) then n else length xs)
length-take zero xs = ground arith
length-take (suc n) [] = ground arith
length-take (suc n) (x ∷ xs) = ground (arith, length-take n xs)

length-insert : (v : Version) (xs : List Version) → length (insert v xs) ≡ suc (length xs)
length-insert v [] = refl
length-insert v (x ∷ xs) = ground (arith, length-insert v xs)

length-sort : (xs : List Version) → length (sort xs) ≡ length xs
unfolding sort
length-sort [] = refl
length-sort (x ∷ xs) = omega (arith, length-insert x (sort xs), length-sort xs)

-- Only versions that the loop goes through are dismissed.
count-dismissed :
    (wall : ℕ → Wall) (reference : ℕ) (rules : Rules) (vs : List Version) (f : Version → Bool)
    → count f (filter_versions wall reference rules vs).dismissed
      ≤ count f (considered wall reference rules vs)
unfolding filter_versions
count-dismissed wall reference rules vs f =
    let periods = periods_of rules in
    let start : State = record { dismissed = []; shelves = map empty_shelf periods } in
    let input = considered wall reference rules vs in
    let s = consider_all wall reference periods input start in
    omega (
      arith,
      count-append f s.dismissed (reject_all s.shelves),
      count-reject_all f s.shelves,
      count-empty f periods,
      total-consider_all wall reference f periods input start (has_shelf-matching periods),
    )

latest-remains :
    (wall : ℕ → Wall) (reference : ℕ) (rules : Rules) (vs : List Version) (n : ℕ)
    → lookup latest rules ≡ some n
    → Any
        (λ e. e ≡ (latest, (pos 0, take n (sort vs)) ∷ []))
        (filter_versions wall reference rules vs).remaining
unfolding filter_versions
latest-remains wall reference rules vs n h =
    let s =
      consider_all wall reference (periods_of rules) (considered wall reference rules vs)
        (record { dismissed = []; shelves = map empty_shelf (periods_of rules) }) in
    let bucket : latest_bucket wall reference rules vs
        ≡ (latest, (pos 0, take n (sort vs)) ∷ []) ∷ [] =
      ground arith in
    let here : Any (λ e. e ≡ (latest, (pos 0, take n (sort vs)) ∷ []))
        (latest_bucket wall reference rules vs) =
      rw bucket (inl refl) in
    Any-right (λ e. e ≡ (latest, (pos 0, take n (sort vs)) ∷ [])) (map remaining_of s.shelves)
      (latest_bucket wall reference rules vs) here

considered-drop :
    (wall : ℕ → Wall) (reference : ℕ) (rules : Rules) (vs : List Version) (n : ℕ)
    → lookup latest rules ≡ some n
    → considered wall reference rules vs ≡ drop n (sort vs)
considered-drop wall reference rules vs n h = ground arith

-- Where the policy keeps the latest `n` versions: as many remain under that category, or all if there
-- are fewer, and no version that is dismissed is younger than any of them, whatever the reference
-- time is.
pub latest-IsKept :
    (wall : ℕ → Wall) (reference : ℕ) (rules : Rules) (vs : List Version) (n : ℕ)
    → lookup latest rules ≡ some n
    → (kept : List Version) × Any
        (λ e. e ≡ (latest, (pos 0, kept) ∷ []))
        (filter_versions wall reference rules vs).remaining
      × (length kept ≡ (if leb n (length vs) then n else length vs))
      × All (λ v. count (is_younger v) (filter_versions wall reference rules vs).dismissed ≡ 0) kept
latest-IsKept wall reference rules vs n h =
    let kept = take n (sort vs) in
    let behind = take-drop n (sort vs) (sort-IsFalling vs) in
    (
      kept,
      latest-remains wall reference rules vs n h,
      length-take n (sort vs) ∙ rw (length-sort vs) refl,
      All-map kept
          (λ v none_younger.
            let bound = count-dismissed wall reference rules vs (is_younger v) in
            let same : count (is_younger v) (considered wall reference rules vs) ≡ 0 =
              rw (considered-drop wall reference rules vs n h) none_younger in
            omega (arith, bound, same))
          behind,
    )
