-- ===== src/Retention/Covers.antt =====
-- Why a version is dismissed.
use benji.Prelude.{
  ℕ, ◌≡◌, refl, sym, none, some, List, [], ◌∷◌, ◌++◌, map, append_assoc, append-nil, Option-cases,
  inl, inr, ◌⊎◌, All, All-append, All-map, Any, Any-left, Any-right, if_either,
}
use benji.Prelude.Int.{ℤ}
use benji.Retention.{Period, Category, Rules, Version, period_eq}
use benji.Retention.Timedelta.{Wall, Timedelta, timedelta}
use benji.Retention.Filter.{
  Buckets, int_eq, append_to, file_version, periods_of, matching, State, all_but_last, last,
  rejects, reject_all, oldest_of, remaining_of, empty_shelf, consider, consider_all, considered,
  latest_bucket, filter_versions,
}
use benji.Retention.Counts.{versions_of, members}
use benji.Retention.Total.{consider-none, consider-dismiss, consider-file}
use benji.Retention.Falling.{
  IsOlder, IsFalling, IsFalling-without, int_eq_sound, period_eq_sound, All-last, All-both,
  All-either, considered-IsFalling,
}

module _ (wall : ℕ → Wall) (reference : ℕ) (rules : List (Period × ℕ)) where
  -- The version is not later than the reference time, and of these many hours, days and so on.
  abbrev pub HasKey : Period → ℤ → Version → Type 0
  HasKey c n v =
      (td : Timedelta) × (timedelta wall v.date reference ≡ some td)
      × (matching rules td ≡ some (c, n))

  abbrev pub IsTooOld : Version → Type 0
  IsTooOld v =
      (td : Timedelta) × (timedelta wall v.date reference ≡ some td) × (matching rules td ≡ none)

  -- Among some versions is one of the same period that is not younger.
  abbrev pub IsCovered : List Version → Version → Type 0
  IsCovered kept w =
      (c : Period) × (n : ℤ) × HasKey c n w × Any (λ v. HasKey c n v × IsOlder w v) kept

  abbrev BucketIsSound : List Version → Period → ℤ × List Version → Type 0
  BucketIsSound rest c b = All (HasKey c b.0) b.1 × IsFalling (b.1 ++ rest)

  abbrev ShelfIsSound : List Version → Period × Buckets → Type 0
  ShelfIsSound rest shelf = All (BucketIsSound rest shelf.0) shelf.1

  bucket-without :
      (v : Version) (rest : List Version) (c : Period) (bs : Buckets)
      → All (BucketIsSound (v ∷ rest) c) bs
      → All (BucketIsSound rest c) bs
  bucket-without v rest c bs = All-map bs (λ b h. (h.0, IsFalling-without b.1 v rest h.1))

  shelf-without :
      (v : Version) (rest : List Version) (shelves : List (Period × Buckets))
      → All (ShelfIsSound (v ∷ rest)) shelves
      → All (ShelfIsSound rest) shelves
  shelf-without v rest shelves =
      All-map shelves (λ shelf h. bucket-without v rest shelf.0 shelf.1 h)

  append_to-IsSound :
      (v : Version) (rest : List Version) (c : Period) (n : ℤ) (bs : Buckets)
      → HasKey c n v
      → IsFalling (v ∷ rest)
      → All (BucketIsSound (v ∷ rest) c) bs
      → All (BucketIsSound rest c) (append_to n v bs)
  unfolding append_to
  append_to-IsSound v rest c n [] key fall h = (((key, tt), fall), tt)
  append_to-IsSound v rest c n ((m, vs) ∷ bs) key fall ((ks, f), h) =
      if_either (All (BucketIsSound rest c)) (int_eq n m) ((m, vs ++ v ∷ []) ∷ bs)
        ((m, vs) ∷ append_to n v bs)
        (λ e.
          let same : HasKey c m v = rw (sym (int_eq_sound n m e)) key in
          (
            (All-append (HasKey c m) vs (v ∷ []) ks (same, tt), rw append_assoc f),
            bucket-without v rest c bs h,
          ))
        (λ e. ((ks, IsFalling-without vs v rest f), append_to-IsSound v rest c n bs key fall h))

  file_version-IsSound :
      (v : Version) (rest : List Version) (c : Period) (n : ℤ) (shelves : List (Period × Buckets))
      → HasKey c n v
      → IsFalling (v ∷ rest)
      → All (ShelfIsSound (v ∷ rest)) shelves
      → All (ShelfIsSound rest) (file_version c n v shelves)
  unfolding file_version
  file_version-IsSound v rest c n [] key fall h = tt
  file_version-IsSound v rest c n ((d, bs) ∷ shelves) key fall (b, h) =
      if_either (All (ShelfIsSound rest)) (period_eq c d) ((d, append_to n v bs) ∷ shelves)
        ((d, bs) ∷ file_version c n v shelves)
        (λ e.
          let same : HasKey d n v = rw (sym (period_eq_sound c d e)) key in
          (append_to-IsSound v rest d n bs same fall b, shelf-without v rest shelves h))
        (λ e. (bucket-without v rest d bs b, file_version-IsSound v rest c n shelves key fall h))

  abbrev StateIsSound : List Version → State → Type 0
  StateIsSound rest s = All IsTooOld s.dismissed × All (ShelfIsSound rest) s.shelves

  consider-IsSound :
      (v : Version) (rest : List Version) (s : State)
      → IsFalling (v ∷ rest)
      → StateIsSound (v ∷ rest) s
      → StateIsSound rest (consider wall reference rules v s)
  consider-IsSound v rest s fall (old, h) = elim (Option-cases (timedelta wall v.date reference)) [
    | inl e ↦ rw (consider-none wall reference rules v s e) (old, shelf-without v rest s.shelves h)
    | inr (td, e) ↦ elim (Option-cases (matching rules td)) [
      | inl m ↦ rw (consider-dismiss wall reference rules v s td e m) (
        All-append IsTooOld s.dismissed (v ∷ []) old ((td, e, m), tt),
        shelf-without v rest s.shelves h,
      )
      | inr ((c, n), m) ↦
          rw (consider-file wall reference rules v s td c n e m)
            (old, file_version-IsSound v rest c n s.shelves (td, e, m) fall h)
    ]
  ]

  consider_all-IsSound :
      (vs : List Version) (s : State)
      → IsFalling vs
      → StateIsSound vs s
      → StateIsSound [] (consider_all wall reference rules vs s)
  unfolding consider_all
  consider_all-IsSound [] s fall h = h
  consider_all-IsSound (v ∷ vs) s fall h =
      consider_all-IsSound vs (consider wall reference rules v s) fall.1
        (consider-IsSound v vs s fall h)

  -- Of the versions of a bucket all but the last are covered by the last.
  last-IsCovered :
      (c : Period) (n : ℤ) (vs : List Version)
      → All (HasKey c n) vs
      → IsFalling vs
      → All (IsCovered (last vs)) (all_but_last vs)
  last-IsCovered c n [] ks f = tt
  last-IsCovered c n (v ∷ []) ks f = tt
  last-IsCovered c n (v ∷ w ∷ vs) (k, ks) (older, f) =
      let both : All (λ u. HasKey c n u × IsOlder v u) (w ∷ vs) =
        All-both (HasKey c n) (IsOlder v) (w ∷ vs) ks older in
      (
        (c, n, k, All-last (λ u. HasKey c n u × IsOlder v u) w vs both),
        last-IsCovered c n (w ∷ vs) ks f,
      )

  IsCovered-left : (xs ys ws : List Version) → All (IsCovered xs) ws → All (IsCovered (xs ++ ys)) ws
  IsCovered-left xs ys ws =
      All-map ws (λ w h. (h.0, h.1, h.2, Any-left (λ v. HasKey h.0 h.1 v × IsOlder w v) xs ys h.3))

  IsCovered-right :
      (xs ys ws : List Version) → All (IsCovered ys) ws → All (IsCovered (xs ++ ys)) ws
  IsCovered-right xs ys ws =
      All-map ws (λ w h. (h.0, h.1, h.2, Any-right (λ v. HasKey h.0 h.1 v × IsOlder w v) xs ys h.3))

  rejects-IsCovered :
      (c : Period) (bs : Buckets)
      → All (BucketIsSound [] c) bs
      → All (IsCovered (versions_of (map oldest_of bs))) (rejects bs)
  unfolding rejects
  rejects-IsCovered c [] h = tt
  rejects-IsCovered c ((n, vs) ∷ bs) ((ks, f), h) =
      let kept = versions_of (map oldest_of bs) in
      let falling : IsFalling vs = rw (sym (append-nil vs)) f in
      All-append (IsCovered (last vs ++ kept)) (all_but_last vs) (rejects bs)
        (IsCovered-left (last vs) kept (all_but_last vs) (last-IsCovered c n vs ks falling))
        (IsCovered-right (last vs) kept (rejects bs) (rejects-IsCovered c bs h))

  reject_all-IsCovered :
      (shelves : List (Period × Buckets))
      → All (ShelfIsSound []) shelves
      → All (IsCovered (members (map remaining_of shelves))) (reject_all shelves)
  unfolding reject_all
  reject_all-IsCovered [] h = tt
  reject_all-IsCovered ((c, bs) ∷ shelves) (b, h) =
      let kept = versions_of (map oldest_of bs) in
      let more = members (map remaining_of shelves) in
      All-append (IsCovered (kept ++ more)) (rejects bs) (reject_all shelves)
        (IsCovered-left kept more (rejects bs) (rejects-IsCovered c bs b))
        (IsCovered-right kept more (reject_all shelves) (reject_all-IsCovered shelves h))

empty-IsSound :
    (wall : ℕ → Wall) (reference : ℕ) (rules periods : List (Period × ℕ)) (rest : List Version)
    → All (ShelfIsSound wall reference rules rest) (map empty_shelf periods)
empty-IsSound wall reference rules [] rest = tt
empty-IsSound wall reference rules (p ∷ periods) rest =
    (tt, empty-IsSound wall reference rules periods rest)

members-append : (xs ys : List (Category × Buckets)) → members (xs ++ ys) ≡ members xs ++ members ys
members-append [] ys = refl
members-append ((c, bs) ∷ xs) ys = rw (members-append xs ys, append_assoc) refl

-- Whatever the time zone, the rules and the versions: a version that is dismissed is not later than
-- the reference time. It is too old for every category but `latest`, or it falls into one, and then a
-- version that is not younger, and falls into the same hour, day, week, month or year of the same
-- category, remains.
pub dismissed-IsCovered :
    (wall : ℕ → Wall) (reference : ℕ) (rules : Rules) (vs : List Version)
    → All
        (λ w.
          IsTooOld wall reference (periods_of rules) w
          ⊎ IsCovered wall reference
              (periods_of rules)
              (members (filter_versions wall reference rules vs).remaining)
              w)
        (filter_versions wall reference rules vs).dismissed
unfolding filter_versions
dismissed-IsCovered wall reference rules vs =
    let periods = periods_of rules in
    let start : State = record { dismissed = []; shelves = map empty_shelf periods } in
    let input = considered wall reference rules vs in
    let s = consider_all wall reference periods input start in
    let kept = members (map remaining_of s.shelves) in
    let more = latest_bucket wall reference rules vs in
    let sound =
      consider_all-IsSound wall reference periods input start
        (considered-IsFalling wall reference rules vs)
        (tt, empty-IsSound wall reference periods periods input) in
    let covered =
      IsCovered-left wall reference periods kept (members more) (reject_all s.shelves)
        (reject_all-IsCovered wall reference periods s.shelves sound.1) in
    rw (members-append (map remaining_of s.shelves) more) (
      All-either (IsTooOld wall reference periods)
        (IsCovered wall reference periods (kept ++ members more)) s.dismissed (reject_all s.shelves)
        sound.0 covered)
