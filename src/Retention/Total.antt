-- ===== src/Retention/Total.antt =====
-- Every version that the retention filter is given, counted: the loop, and the whole of `_filter`.
use benji.Prelude.{
  take, ℕ, ◌+◌, ◌≡◌, refl, ◌∙◌, Bool, true, false, none, some, List, [], ◌∷◌, ◌++◌, map, arith, ltb,
  Option-cases, inl, inr,
}
use benji.Prelude.Int.{ℤ}
use benji.Retention.{Period, Category, latest, Rules, Version, lookup}
use benji.Retention.Timedelta.{Wall, Timedelta, timedelta}
use benji.Retention.Filter.{
  Buckets, file_version, periods_of, sort, matching, State, reject_all, remaining_of, empty_shelf,
  consider, consider_all, considered, latest_bucket, filter_versions,
}
use benji.Retention.Counts.{
  versions_of, members, shelved, has_shelf, later, one, count, count-append, count-sort, count-take,
  count-file_version, count-reject_all,
}

has_shelf-file_version :
    (b c : Period) (n : ℤ) (v : Version) (shelves : List (Period × Buckets))
    → has_shelf b (file_version c n v shelves) ≡ has_shelf b shelves
unfolding file_version
has_shelf-file_version b c n v [] = refl
has_shelf-file_version b c n v ((d, bs) ∷ shelves) =
    ground (arith, has_shelf-file_version b c n v shelves)

pub has_shelf-matching :
    (rules : List (Period × ℕ)) (td : Timedelta) (c : Period) (n : ℤ)
    → matching rules td ≡ some (c, n)
    → has_shelf c (map empty_shelf rules) ≡ true
unfolding matching
has_shelf-matching [] td c n h = cc
has_shelf-matching ((p, limit) ∷ rules) td c n h = ground (arith, has_shelf-matching rules td c n)

-- There is a shelf for each category that a version can match.
abbrev pub HasShelves : List (Period × ℕ) → List (Period × Buckets) → Type 0
HasShelves rules shelves =
    (td : Timedelta) (c : Period) (n : ℤ)
    → matching rules td ≡ some (c, n)
    → has_shelf c shelves ≡ true

module _ (wall : ℕ → Wall) (reference : ℕ) (rules : List (Period × ℕ)) where
  -- The three ways of the loop with a version.
  pub consider-none :
      (v : Version) (s : State)
      → timedelta wall v.date reference ≡ none
      → consider wall reference rules v s ≡ s
  unfolding consider
  consider-none v s e = ground arith

  pub consider-dismiss :
      (v : Version) (s : State) (td : Timedelta)
      → timedelta wall v.date reference ≡ some td
      → matching rules td ≡ none
      → consider wall reference rules v s ≡ record s { dismissed = s.dismissed ++ v ∷ [] }
  unfolding consider
  consider-dismiss v s td e m = ground arith

  pub consider-file :
      (v : Version) (s : State) (td : Timedelta) (c : Period) (n : ℤ)
      → timedelta wall v.date reference ≡ some td
      → matching rules td ≡ some (c, n)
      → consider wall reference rules v s ≡ record s { shelves = file_version c n v s.shelves }
  unfolding consider
  consider-file v s td c n e m = ground arith

module _ (wall : ℕ → Wall) (reference : ℕ) (f : Version → Bool) (rules : List (Period × ℕ)) where
  has_shelf-consider :
      (c : Period) (v : Version) (s : State)
      → has_shelf c (consider wall reference rules v s).shelves ≡ has_shelf c s.shelves
  has_shelf-consider c v s = elim (Option-cases (timedelta wall v.date reference)) [
    | inl e ↦ rw (consider-none wall reference rules v s e) refl
    | inr (td, e) ↦ elim (Option-cases (matching rules td)) [
      | inl m ↦ rw (consider-dismiss wall reference rules v s td e m) refl
      | inr ((d, n), m) ↦
          rw (consider-file wall reference rules v s td d n e m)
            (has_shelf-file_version c d n v s.shelves)
    ]
  ]

  abbrev pub total : State → ℕ
  total s = count f s.dismissed + count f (shelved s.shelves)

  later-none : (v : Version) → timedelta wall v.date reference ≡ none → ltb reference v.date ≡ true
  unfolding timedelta
  later-none v h = ground arith

  later-some :
      (v : Version) (td : Timedelta)
      → timedelta wall v.date reference ≡ some td
      → ltb reference v.date ≡ false
  unfolding timedelta
  later-some v td h = ground arith

  total-consider :
      (v : Version) (s : State)
      → HasShelves rules s.shelves
      → total (consider wall reference rules v s) + count f (later reference (v ∷ []))
        ≡ total s + one f v
  total-consider v s h = elim (Option-cases (timedelta wall v.date reference)) [
    | inl e ↦ rw (consider-none wall reference rules v s e, later-none v e) (omega arith)
    | inr (td, e) ↦ elim (Option-cases (matching rules td)) [
      | inl m ↦
          rw (consider-dismiss wall reference rules v s td e m, later-some v td e)
            (omega (arith, count-append f s.dismissed (v ∷ [])))
      | inr ((d, n), m) ↦
          rw (consider-file wall reference rules v s td d n e m, later-some v td e)
            (omega (arith, count-file_version f d n v s.shelves (h td d n m)))
    ]
  ]

  pub total-consider_all :
      (vs : List Version) (s : State)
      → HasShelves rules s.shelves
      → total (consider_all wall reference rules vs s) + count f (later reference vs)
        ≡ total s + count f vs
  unfolding consider_all
  total-consider_all [] s h = omega arith
  total-consider_all (v ∷ vs) s h =
      let again =
        total-consider_all vs (consider wall reference rules v s)
          (λ td c n m. has_shelf-consider c v s ∙ h td c n m) in
      ground (arith, again, total-consider v s h)

pub count-empty :
    (f : Version → Bool) (rules : List (Period × ℕ)) → count f (shelved (map empty_shelf rules)) ≡ 0
count-empty f [] = refl
count-empty f (r ∷ rules) = count-empty f rules

members-append :
    (f : Version → Bool) (xs ys : List (Category × Buckets))
    → count f (members (xs ++ ys)) ≡ count f (members xs) + count f (members ys)
members-append f [] ys = omega arith
members-append f ((c, bs) ∷ xs) ys = omega (
  arith,
  members-append f xs ys,
  count-append f (versions_of bs) (members xs),
  count-append f (versions_of bs) (members (xs ++ ys)),
)

-- The latest versions and those that the loop goes through are all versions.
count-considered :
    (f : Version → Bool) (rules : Rules) (vs : List Version) (wall : ℕ → Wall) (reference : ℕ)
    → count f (members (latest_bucket wall reference rules vs))
        + count f (considered wall reference rules vs)
      ≡ count f vs
count-considered f rules vs wall reference = elim (Option-cases (lookup latest rules)) [
  | inl e ↦ ground (arith, count-sort f vs)
  | inr (n, e) ↦ ground (
    arith,
    count-sort f vs,
    count-take f n (sort vs),
    count-append f (take n (sort vs)) [],
    count-append f (take n (sort vs) ++ []) [],
  )
]

-- Whatever the time zone, the rules and the versions: every version is dismissed, or remains, or is
-- passed over because it is later than the reference time, and no version is so twice. It is stated as
-- the numbers of versions of any kind.
pub filter_versions-count :
    (wall : ℕ → Wall) (reference : ℕ) (rules : Rules) (vs : List Version) (f : Version → Bool)
    → count f (filter_versions wall reference rules vs).dismissed
        + count f (members (filter_versions wall reference rules vs).remaining)
        + count f (later reference (considered wall reference rules vs))
      ≡ count f vs
unfolding filter_versions
filter_versions-count wall reference rules vs f =
    let periods = periods_of rules in
    let start : State = record { dismissed = []; shelves = map empty_shelf periods } in
    let input = considered wall reference rules vs in
    let s = consider_all wall reference periods input start in
    omega (
      arith,
      count-considered f rules vs wall reference,
      count-append f s.dismissed (reject_all s.shelves),
      members-append f (map remaining_of s.shelves) (latest_bucket wall reference rules vs),
      count-reject_all f s.shelves,
      count-empty f periods,
      total-consider_all wall reference f periods input start (has_shelf-matching periods),
    )
