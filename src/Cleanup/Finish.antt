-- ===== src/Cleanup/Finish.antt =====
-- A cleanup ends, since each round takes candidates off the table.
use benji.Prelude.{
  ℕ, zero, suc, ◌≡◌, ◌≤◌, ◌<◌, refl, ap, ◌∙◌, Bool, ◌||◌, not, true, false, some, List, [], ◌∷◌,
  arith, ltb, take, any, any-filter, filter, length, Bool-cases, inl, inr, uncons,
}
use benji.Storage.Uid.{BlockUid, uid_eq, uid_eq_iff}
use benji.Database.{Block, DeletedBlock}
use benji.Cleanup.{
  State, delete_candidates, false_positives, hit_list, in_uids, delete_uids, cleanup_round, cleanup,
}

length-filter {ℓ} : {A : Type ℓ} (p : A → Bool) (xs : List A) → length (filter p xs) ≤ length xs
length-filter p [] = omega arith
length-filter p (x ∷ xs) = ground (arith, length-filter p xs)

-- A filter that leaves one out is shorter.
length-filter_less {ℓ} :
    {A : Type ℓ} (p q : A → Bool) (xs : List A)
    → any q xs ≡ true
    → ((x : A) → q x ≡ true → p x ≡ false)
    → length (filter p xs) < length xs
length-filter_less p q [] h out = absurd (ground arith)
length-filter_less p q (x ∷ xs) h out = elim (Bool-cases (q x)) [
  | inl e ↦ let gone = out x e in ground (arith, length-filter p xs, gone)
  | inr e ↦ let less = length-filter_less p q xs (ground arith) out in ground (arith, less)
]

-- The first candidate is a row that is old enough.
candidate_listed :
    (limit : ℕ) (p : DeletedBlock → Bool) (rows cs : List DeletedBlock) (c : DeletedBlock)
    → take limit (filter p rows) ≡ c ∷ cs
    → any (λ d. uid_eq d.uid c.uid) rows ≡ true
candidate_listed zero p rows cs c e = absurd (ground arith)
candidate_listed (suc limit) p [] cs c e = absurd (ground arith)
candidate_listed (suc limit) p (d ∷ rows) cs c e = elim (Bool-cases (p d)) [
  | inl f ↦
      let same : d ≡ c = ground arith in
      let own : uid_eq d.uid c.uid ≡ true = (uid_eq_iff d.uid c.uid).1 (ap (λ w. w.uid) same) in
      ground (arith, own)
  | inr f ↦
      let there = candidate_listed (suc limit) p rows cs c (ground arith) in ground (arith, there)
]

module _ (blocks : List Block) where
  -- A candidate is a false positive or a hit.
  pub in_uids-parts :
      (cs : List DeletedBlock) (uid : BlockUid)
      → in_uids cs uid
        ≡ (in_uids (false_positives blocks cs) uid || in_uids (hit_list blocks cs) uid)
  in_uids-parts [] uid = refl
  in_uids-parts (c ∷ cs) uid = ground (arith, in_uids-parts cs uid)

  abbrev left_over : List DeletedBlock → List DeletedBlock → List DeletedBlock
  left_over cs rows =
      delete_uids (hit_list blocks cs) (delete_uids (false_positives blocks cs) rows)

  in_uids-same :
      (cs : List DeletedBlock) (d : DeletedBlock) (uid : BlockUid)
      → uid_eq d.uid uid ≡ true
      → in_uids cs d.uid ≡ in_uids cs uid
  in_uids-same cs d uid e = ap (in_uids cs) ((uid_eq_iff d.uid uid).0 e)

  -- A round with a candidate leaves less.
  left_over-less :
      (limit : ℕ) (p : DeletedBlock → Bool) (rows cs : List DeletedBlock) (c : DeletedBlock)
      → take limit (filter p rows) ≡ c ∷ cs
      → length (left_over (c ∷ cs) rows) < length rows
  left_over-less limit p rows cs c e =
      let used = false_positives blocks (c ∷ cs) in
      let hits = hit_list blocks (c ∷ cs) in
      let own : uid_eq c.uid c.uid ≡ true = (uid_eq_iff c.uid c.uid).1 refl in
      let first : in_uids (c ∷ cs) c.uid ≡ true = rw own refl in
      let parts = in_uids-parts (c ∷ cs) c.uid in
      let there = candidate_listed limit p rows cs c e in
      let shorter = length-filter (λ d. not (in_uids hits d.uid)) (delete_uids used rows) in
      elim (Bool-cases (in_uids used c.uid)) [
        | inl f ↦ omega (
          arith,
          shorter,
          length-filter_less (λ d. not (in_uids used d.uid)) (λ d. uid_eq d.uid c.uid) rows there
              (λ d same. ap not (in_uids-same used d c.uid same ∙ f)),
        )
        | inr f ↦
            let hit : in_uids hits c.uid ≡ true = ground (arith, first, parts, f) in
            let kept =
              any-filter (λ d. uid_eq d.uid c.uid) (λ d. not (in_uids used d.uid)) rows
                (λ d same. ap not (in_uids-same used d c.uid same ∙ f)) there in
            omega (
              arith,
              length-filter (λ d. not (in_uids used d.uid)) rows,
              length-filter_less (λ d. not (in_uids hits d.uid)) (λ d. uid_eq d.uid c.uid)
                  (delete_uids used rows) kept
                  (λ d same. ap not (in_uids-same hits d c.uid same ∙ hit)),
            )
      ]

-- A cleanup with more fuel than there are candidates ends.
pub cleanup_finishes :
    (limit cut_off fuel : ℕ) (s : State)
    → length s.deleted_blocks < fuel
    → (t : State) × (cleanup limit cut_off fuel s ≡ some t)
unfolding cleanup cleanup_round
cleanup_finishes limit cut_off zero s h = absurd (omega arith)
cleanup_finishes limit cut_off (suc fuel) s h =
    elim (uncons (delete_candidates limit cut_off s.deleted_blocks)) [
      | inl f ↦ (s, simp (cleanup, f) refl)
      | inr (c, cs, f) ↦
          let less =
            left_over-less s.blocks limit (λ d. ltb d.date cut_off) s.deleted_blocks cs c f in
          let (t, e) =
            cleanup_finishes limit cut_off fuel (cleanup_round (c ∷ cs) s) (omega (arith, less)) in
          (t, simp (cleanup, f) e)
    ]
