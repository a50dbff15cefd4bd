-- ===== src/Cleanup/Complete.antt =====
-- A cleanup leaves no object that is listed long enough ago and not used.
use benji.Prelude.{
  ℕ, zero, suc, ◌==◌, ◌≡◌, ◌<◌, refl, sym, ap, ◌∙◌, Bool, ◌&&◌, not, true, false, some, List, [],
  ◌∷◌, arith, ltb, take, any, any-filter, filter, All, Bool-cases, inl, inr, ==_iff,
}
use benji.Storage.Uid.{BlockUid, uid_eq, uid_eq_iff}
use benji.Database.{Block, DeletedBlock}
use benji.Database.Blocks.{All-filter}
use benji.Cleanup.{
  State, is_used, delete_candidates, false_positives, hit_list, in_uids, delete_uids, is_hit,
  cleanup_round, cleanup, has_object,
}
use benji.Cleanup.Safe.{cleanup-step, has_object-rm_blocks}
use benji.Cleanup.Finish.{in_uids-parts}

-- A row that is old enough, of a storage and a uid.
abbrev pub is_due : ℕ → ℕ → BlockUid → DeletedBlock → Bool
is_due cut_off storage_id uid d =
    ltb d.date cut_off && d.storage_id == storage_id && uid_eq d.uid uid

none_due :
    (limit cut_off storage_id : ℕ) (uid : BlockUid) (rows : List DeletedBlock)
    → 0 < limit
    → delete_candidates limit cut_off rows ≡ []
    → any (is_due cut_off storage_id uid) rows ≡ false
none_due zero cut_off storage_id uid rows pos e = absurd (omega arith)
none_due (suc limit) cut_off storage_id uid [] pos e = refl
none_due (suc limit) cut_off storage_id uid (d ∷ rows) pos e =
    elim (Bool-cases (ltb d.date cut_off)) [
      | inl f ↦ absurd (ground arith)
      | inr f ↦
          let rest = none_due (suc limit) cut_off storage_id uid rows pos (ground arith) in
          ground (arith, rest)
    ]

All-take {ℓ} : {A : Type ℓ} (P : A → Type 0) (n : ℕ) (xs : List A) → All P xs → All P (take n xs)
All-take P zero xs h = tt
All-take P (suc n) [] h = tt
All-take P (suc n) (x ∷ xs) (p, h) = (p, All-take P n xs h)

module _ (storage_of : BlockUid → ℕ) where
  -- A uid is of one storage.
  abbrev pub AreOfOneStorage : List DeletedBlock → Type 0
  AreOfOneStorage = All (λ d. d.storage_id ≡ storage_of d.uid)

  due_storage :
      (cut_off storage_id : ℕ) (uid : BlockUid) (rows : List DeletedBlock)
      → AreOfOneStorage rows
      → any (is_due cut_off storage_id uid) rows ≡ true
      → storage_id ≡ storage_of uid
  due_storage cut_off storage_id uid [] h due = absurd (ground arith)
  due_storage cut_off storage_id uid (d ∷ rows) (of_one, h) due =
      elim (Bool-cases (is_due cut_off storage_id uid d)) [
        | inl e ↦
            let place : d.storage_id ≡ storage_id =
              (==_iff d.storage_id storage_id).0 (ground (arith, e)) in
            let is : d.uid ≡ uid = (uid_eq_iff d.uid uid).0 (ground (arith, e)) in
            sym place ∙ of_one ∙ ap storage_of is
        | inr e ↦ due_storage cut_off storage_id uid rows h (ground arith)
      ]

  candidate_hit :
      (blocks : List Block) (cs : List DeletedBlock) (uid : BlockUid)
      → AreOfOneStorage cs
      → is_used blocks uid ≡ false
      → in_uids cs uid ≡ true
      → is_hit (hit_list blocks cs) (storage_of uid) uid ≡ true
  candidate_hit blocks [] uid h unused listed = absurd (ground arith)
  candidate_hit blocks (c ∷ cs) uid (of_one, h) unused listed =
      elim (Bool-cases (uid_eq c.uid uid)) [
        | inl e ↦
            let is : c.uid ≡ uid = (uid_eq_iff c.uid uid).0 e in
            let free : is_used blocks c.uid ≡ false = ap (is_used blocks) is ∙ unused in
            let place : (c.storage_id == storage_of uid) ≡ true =
              (==_iff c.storage_id (storage_of uid)).1 (of_one ∙ ap storage_of is) in
            ground (arith, free, place)
        | inr e ↦
            let rest = candidate_hit blocks cs uid h unused (ground arith) in ground (arith, rest)
      ]

no_fuel : (limit cut_off : ℕ) (s t : State) → cleanup limit cut_off 0 s ≡ some t → ⊥
unfolding cleanup
no_fuel limit cut_off s t e = ground arith

gone_stays :
    (limit cut_off fuel : ℕ) (s t : State) (storage_id : ℕ) (uid : BlockUid)
    → cleanup limit cut_off fuel s ≡ some t
    → has_object storage_id uid s.objects ≡ false
    → has_object storage_id uid t.objects ≡ false
unfolding cleanup cleanup_round
gone_stays limit cut_off zero s t storage_id uid e gone = absurd (ground arith)
gone_stays limit cut_off (suc fuel) s t storage_id uid e gone =
    let candidates = delete_candidates limit cut_off s.deleted_blocks in
    elim (cleanup-step limit cut_off fuel s t e) [
      | inl (_, same) ↦ ap (λ w. has_object storage_id uid w.objects) (sym same) ∙ gone
      | inr rest ↦
          let now = has_object-rm_blocks (hit_list s.blocks candidates) storage_id uid s.objects in
          gone_stays limit cut_off fuel (cleanup_round candidates s) t storage_id uid rest
            (now ∙ ground (arith, gone))
    ]

left_due :
    (cut_off storage_id : ℕ) (uid : BlockUid) (ds rows : List DeletedBlock)
    → in_uids ds uid ≡ false
    → any (is_due cut_off storage_id uid) rows ≡ true
    → any (is_due cut_off storage_id uid) (delete_uids ds rows) ≡ true
left_due cut_off storage_id uid ds rows unlisted due =
    any-filter (is_due cut_off storage_id uid) (λ d. not (in_uids ds d.uid)) rows
      (λ d is.
        let same : uid_eq d.uid uid ≡ true = ground (arith, is) in
        ap not (ap (in_uids ds) ((uid_eq_iff d.uid uid).0 same) ∙ unlisted))
      due

-- After a cleanup, an object that was listed for deletion long enough ago, and that no block refers to,
-- is not in its storage, where uids that are listed twice are of one storage.
pub cleanup_complete :
    (storage_of : BlockUid → ℕ) (limit cut_off fuel : ℕ) (s t : State) (storage_id : ℕ)
    (uid : BlockUid)
    → 0 < limit
    → AreOfOneStorage storage_of s.deleted_blocks
    → cleanup limit cut_off fuel s ≡ some t
    → any (is_due cut_off storage_id uid) s.deleted_blocks ≡ true
    → is_used s.blocks uid ≡ false
    → has_object storage_id uid t.objects ≡ false
unfolding cleanup_round
cleanup_complete storage_of limit cut_off zero s t storage_id uid pos of_one e due unused =
    absurd (no_fuel limit cut_off s t e)
cleanup_complete storage_of limit cut_off (suc fuel) s t storage_id uid pos of_one e due unused =
    let rows = s.deleted_blocks in
    let cs = delete_candidates limit cut_off rows in
    let used = false_positives s.blocks cs in
    let hits = hit_list s.blocks cs in
    let place = due_storage storage_of cut_off storage_id uid rows of_one due in
    elim (cleanup-step limit cut_off fuel s t e) [
      | inl (f, _) ↦ absurd (ground (arith, none_due limit cut_off storage_id uid rows pos f, due))
      | inr rest ↦ elim (Bool-cases (in_uids cs uid)) [
        | inl listed ↦
            let of_cs =
              All-take _ limit (filter (λ d. ltb d.date cut_off) rows)
                (All-filter _ (λ d. ltb d.date cut_off) rows of_one) in
            let hit = candidate_hit storage_of s.blocks cs uid of_cs unused listed in
            let hit' : is_hit hits storage_id uid ≡ true =
              ap (λ i. is_hit hits i uid) place ∙ hit in
            let now = has_object-rm_blocks hits storage_id uid s.objects in
            gone_stays limit cut_off fuel (cleanup_round cs s) t storage_id uid rest
              (now ∙ ground (arith, hit'))
        | inr unlisted ↦
            let parts = in_uids-parts s.blocks cs uid in
            let no_used : in_uids used uid ≡ false = ground (arith, parts, unlisted) in
            let no_hits : in_uids hits uid ≡ false = ground (arith, parts, unlisted) in
            let left = left_due cut_off storage_id uid used rows no_used due in
            let left' = left_due cut_off storage_id uid hits (delete_uids used rows) no_hits left in
            cleanup_complete storage_of limit cut_off fuel (cleanup_round cs s) t storage_id uid pos
              (All-filter _ (λ d. not (in_uids hits d.uid)) (delete_uids used rows)
                (All-filter _ (λ d. not (in_uids used d.uid)) rows of_one))
              rest left' unused
      ]
    ]
