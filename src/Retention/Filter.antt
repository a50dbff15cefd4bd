-- ===== src/Retention/Filter.antt =====
-- `_filter` of src/benji/retentionfilter.py.
use benji.Prelude.{
  ℕ, ◌==◌, Bool, false, Option, none, some, List, [], ◌∷◌, ◌++◌, map, if◌then◌else◌, leb, take,
  drop,
}
use benji.Prelude.Int.{ℤ, pos, negsuc, ltb_ℤ}
use benji.Retention.{Period, Category, latest, every, Rules, Version, period_eq, lookup}
use benji.Retention.Timedelta.{Wall, Timedelta, timedelta, timecount_of}

-- Lists of versions by the number of hours, days and so on: a `defaultdict(list)`, in the order in
-- which its keys come.
abbrev pub Buckets : Type 0
Buckets = List (ℤ × List Version)

abbrev pub int_eq : ℤ → ℤ → Bool
int_eq (pos m) (pos n) = m == n
int_eq (negsuc m) (negsuc n) = m == n
int_eq _ _ = false

-- `buckets[timecount].append(version)`
unfoldable pub append_to : ℤ → Version → Buckets → Buckets
append_to n v [] = (n, v ∷ []) ∷ []
append_to n v ((m, vs) ∷ bs) =
    let rest = append_to n v bs in if int_eq n m then (m, vs ++ v ∷ []) ∷ bs else (m, vs) ∷ rest

-- `versions_by_category[category][timecount].append(version)`
unfoldable pub file_version :
    Period → ℤ → Version → List (Period × Buckets) → List (Period × Buckets)
file_version c n v [] = []
file_version c n v ((d, bs) ∷ shelves) =
    let rest = file_version c n v shelves in
    if period_eq c d then (d, append_to n v bs) ∷ shelves else (d, bs) ∷ rest

-- The rules without `latest`.
abbrev pub periods_of : Rules → List (Period × ℕ)
periods_of [] = []
periods_of ((latest, n) ∷ rules) = periods_of rules
periods_of ((every p, n) ∷ rules) = (p, n) ∷ periods_of rules

abbrev pub empty_shelf : Period × ℕ → Period × Buckets
empty_shelf rule = (rule.0, [])

-- `versions.sort(key=lambda version: version.date, reverse=True)`, which is stable.
abbrev pub insert : Version → List Version → List Version
insert v [] = v ∷ []
insert v (x ∷ xs) = let rest = insert v xs in if leb x.date v.date then v ∷ x ∷ xs else x ∷ rest

unfoldable pub sort : List Version → List Version
sort [] = []
sort (v ∷ vs) = insert v (sort vs)

-- The first category, in the order of the rules, that a version is young enough for.
unfoldable pub matching : List (Period × ℕ) → Timedelta → Option (Period × ℤ)
matching [] td = none
matching ((p, limit) ∷ rules) td =
    let rest = matching rules td in
    if ltb_ℤ (pos limit) (timecount_of p td) then rest else some (p, timecount_of p td)

-- What the loop over the versions changes: `dismissed_versions` and `versions_by_category`.
pub record State : Type 0 where
  pub dismissed : List Version
  pub shelves : List (Period × Buckets)

-- `vs[:-1]` and `vs[-1:]`
abbrev pub all_but_last : List Version → List Version
all_but_last [] = []
all_but_last (v ∷ []) = []
all_but_last (v ∷ w ∷ vs) = v ∷ all_but_last (w ∷ vs)

abbrev pub last : List Version → List Version
last [] = []
last (v ∷ []) = v ∷ []
last (v ∷ w ∷ vs) = last (w ∷ vs)

-- The loops at the end, over the categories and the timecounts: of each bucket the oldest version
-- remains and the rest is dismissed.
unfoldable pub rejects : Buckets → List Version
rejects [] = []
rejects ((n, vs) ∷ bs) = all_but_last vs ++ rejects bs

unfoldable pub reject_all : List (Period × Buckets) → List Version
reject_all [] = []
reject_all ((c, bs) ∷ shelves) = rejects bs ++ reject_all shelves

abbrev pub oldest_of : ℤ × List Version → ℤ × List Version
oldest_of bucket = (bucket.0, last bucket.1)

abbrev pub remaining_of : Period × Buckets → Category × Buckets
remaining_of shelf = (every shelf.0, map oldest_of shelf.1)

-- The two values that `_filter` returns.
pub record Filtered : Type 0 where
  pub dismissed : List Version
  pub remaining : List (Category × Buckets)

module _ (wall : ℕ → Wall) (reference : ℕ) where
  -- One version of the loop. A version behind the reference time is passed over.
  unfoldable pub consider : List (Period × ℕ) → Version → State → State
  consider rules v s = elim (timedelta wall v.date reference) [
    | none ↦ s
    | some td ↦ elim (matching rules td) [
      | none ↦ record s { dismissed = s.dismissed ++ v ∷ [] }
      | some (c, timecount) ↦ record s { shelves = file_version c timecount v s.shelves }
    ]
  ]

  unfoldable pub consider_all : List (Period × ℕ) → List Version → State → State
  consider_all rules [] s = s
  consider_all rules (v ∷ vs) s = consider_all rules vs (consider rules v s)

  -- The versions that `latest` keeps, and those that the loop goes through.
  abbrev pub latest_kept : Rules → List Version → List Version
  latest_kept rules vs = elim (lookup latest rules) [ none ↦ [] | some n ↦ take n (sort vs) ]

  abbrev pub considered : Rules → List Version → List Version
  considered rules vs = elim (lookup latest rules) [ none ↦ sort vs | some n ↦ drop n (sort vs) ]

  abbrev pub latest_bucket : Rules → List Version → List (Category × Buckets)
  latest_bucket rules vs = elim (lookup latest rules) [
    | none ↦ []
    | some n ↦ (latest, (pos 0, take n (sort vs)) ∷ []) ∷ []
  ]

  unfoldable pub filter_versions : Rules → List Version → Filtered
  filter_versions rules vs =
      let s =
        consider_all (periods_of rules) (considered rules vs)
          (record { dismissed = []; shelves = map empty_shelf (periods_of rules) }) in
      record {
        dismissed = s.dismissed ++ reject_all s.shelves;
        remaining = map remaining_of s.shelves ++ latest_bucket rules vs;
      }

  -- `filter`
  unfoldable pub filter : Rules → List Version → List Version
  filter rules vs = (filter_versions rules vs).dismissed
