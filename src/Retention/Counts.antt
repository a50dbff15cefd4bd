-- ===== src/Retention/Counts.antt =====
-- How many versions of some kind the lists of the retention filter have.
use benji.Prelude.{
  take, drop, ℕ, zero, suc, ◌+◌, ◌≡◌, refl, Bool, true, false, ◌||◌, List, [], ◌∷◌, ◌++◌, map,
  arith, if◌then◌else◌, leb, ltb, Bool-cases, inl, inr,
}
use benji.Prelude.Int.{ℤ}
use benji.Retention.{Period, Category, Version, period_eq}
use benji.Retention.Filter.{
  Buckets, append_to, file_version, insert, sort, all_but_last, last, rejects, reject_all,
  oldest_of, remaining_of,
}

-- The versions of the buckets that remain.
abbrev pub versions_of : Buckets → List Version
versions_of [] = []
versions_of ((n, vs) ∷ bs) = vs ++ versions_of bs

abbrev pub members : List (Category × Buckets) → List Version
members [] = []
members ((c, bs) ∷ kept) = versions_of bs ++ members kept

abbrev pub shelved : List (Period × Buckets) → List Version
shelved [] = []
shelved ((c, bs) ∷ shelves) = versions_of bs ++ shelved shelves

abbrev pub has_shelf : Period → List (Period × Buckets) → Bool
has_shelf c [] = false
has_shelf c ((d, bs) ∷ shelves) = period_eq c d || has_shelf c shelves

-- The versions behind a time.
abbrev pub later : ℕ → List Version → List Version
later reference [] = []
later reference (v ∷ vs) =
    let rest = later reference vs in if ltb reference v.date then v ∷ rest else rest

module _ (f : Version → Bool) where
  abbrev pub one : Version → ℕ
  one v = if f v then 1 else 0

  abbrev pub count : List Version → ℕ
  count [] = 0
  count (v ∷ vs) = one v + count vs

  pub count-append : (xs ys : List Version) → count (xs ++ ys) ≡ count xs + count ys
  count-append [] ys = omega arith
  count-append (x ∷ xs) ys = omega (arith, count-append xs ys)

  pub count-insert : (v : Version) (xs : List Version) → count (insert v xs) ≡ one v + count xs
  count-insert v [] = refl
  count-insert v (x ∷ xs) = elim (Bool-cases (leb x.date v.date)) [
    | inl e ↦ rw e refl
    | inr e ↦ rw e (omega (arith, count-insert v xs))
  ]

  pub count-sort : (xs : List Version) → count (sort xs) ≡ count xs
  unfolding sort
  count-sort [] = refl
  count-sort (x ∷ xs) = omega (arith, count-insert x (sort xs), count-sort xs)

  pub count-take : (n : ℕ) (xs : List Version) → count (take n xs) + count (drop n xs) ≡ count xs
  count-take zero xs = omega arith
  count-take (suc n) [] = omega arith
  count-take (suc n) (x ∷ xs) = omega (arith, count-take n xs)

  count-append_to :
      (n : ℤ) (v : Version) (bs : Buckets)
      → count (versions_of (append_to n v bs)) ≡ count (versions_of bs) + one v
  unfolding append_to
  count-append_to n v [] = omega arith
  count-append_to n v ((m, vs) ∷ bs) = ground (
    arith,
    count-append_to n v bs,
    count-append vs (versions_of bs),
    count-append vs (v ∷ []),
    count-append (vs ++ v ∷ []) (versions_of bs),
    count-append vs (versions_of (append_to n v bs)),
  )

  pub count-file_version :
      (c : Period) (n : ℤ) (v : Version) (shelves : List (Period × Buckets))
      → has_shelf c shelves ≡ true
      → count (shelved (file_version c n v shelves)) ≡ count (shelved shelves) + one v
  unfolding file_version
  count-file_version c n v [] h = cc
  count-file_version c n v ((d, bs) ∷ shelves) h = ground (
    arith,
    count-file_version c n v shelves,
    count-append_to n v bs,
    count-append (versions_of bs) (shelved shelves),
    count-append (versions_of (append_to n v bs)) (shelved shelves),
    count-append (versions_of bs) (shelved (file_version c n v shelves)),
  )

  count-last : (vs : List Version) → count (all_but_last vs) + count (last vs) ≡ count vs
  count-last [] = omega arith
  count-last (v ∷ []) = omega arith
  count-last (v ∷ w ∷ vs) = omega (arith, count-last (w ∷ vs))

  count-rejects :
      (bs : Buckets)
      → count (rejects bs) + count (versions_of (map oldest_of bs)) ≡ count (versions_of bs)
  unfolding rejects
  count-rejects [] = refl
  count-rejects ((n, vs) ∷ bs) = omega (
    arith,
    count-rejects bs,
    count-last vs,
    count-append vs (versions_of bs),
    count-append (all_but_last vs) (rejects bs),
    count-append (last vs) (versions_of (map oldest_of bs)),
  )

  pub count-reject_all :
      (shelves : List (Period × Buckets))
      → count (reject_all shelves) + count (members (map remaining_of shelves))
        ≡ count (shelved shelves)
  unfolding reject_all
  count-reject_all [] = refl
  count-reject_all ((c, bs) ∷ shelves) = omega (
    arith,
    count-reject_all shelves,
    count-rejects bs,
    count-append (versions_of bs) (shelved shelves),
    count-append (rejects bs) (reject_all shelves),
    count-append (versions_of (map oldest_of bs)) (members (map remaining_of shelves)),
  )
