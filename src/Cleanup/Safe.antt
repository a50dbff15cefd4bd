-- ===== src/Cleanup/Safe.antt =====
-- A cleanup removes no data that is referred to.
use benji.Prelude.{
  ℕ, zero, suc, ◌==◌, ◌≡◌, refl, sym, ap, ◌∙◌, ◌&&◌, not, true, false, some, List, [], ◌∷◌, arith,
  Bool-cases, inl, inr, uncons, ==_iff, ◌⊎◌,
}
use benji.Storage.Uid.{BlockUid, uid_eq, uid_eq_iff}
use benji.Database.{Block, DeletedBlock}
use benji.Cleanup.{
  State, is_used, delete_candidates, hit_list, is_hit, rm_blocks, cleanup_round, cleanup,
  has_object,
}

-- The loop ends where there is no candidate, and goes on with what a round leaves else.
pub cleanup-step :
    (limit cut_off fuel : ℕ) (s t : State)
    → cleanup limit cut_off (suc fuel) s ≡ some t
    → ((delete_candidates limit cut_off s.deleted_blocks ≡ []) × (s ≡ t))
      ⊎ (cleanup limit cut_off fuel
            (cleanup_round (delete_candidates limit cut_off s.deleted_blocks) s)
          ≡ some t)
unfolding cleanup
cleanup-step limit cut_off fuel s t e =
    elim (uncons (delete_candidates limit cut_off s.deleted_blocks)) [
      | inl f ↦ inl (f, ground (arith, e, f))
      | inr (c, cs, f) ↦ inr (ground (arith, e, f))
    ]

-- A used uid is not among the hits.
used-is_hit :
    (blocks : List Block) (cs : List DeletedBlock) (storage_id : ℕ) (uid : BlockUid)
    → is_used blocks uid ≡ true
    → is_hit (hit_list blocks cs) storage_id uid ≡ false
used-is_hit blocks [] storage_id uid used = refl
used-is_hit blocks (c ∷ cs) storage_id uid used = elim (Bool-cases (uid_eq c.uid uid)) [
  | inl e ↦
      let same : is_used blocks c.uid ≡ true =
        ap (is_used blocks) ((uid_eq_iff c.uid uid).0 e) ∙ used in
      ground (arith, used-is_hit blocks cs storage_id uid used, same)
  | inr e ↦ ground (arith, used-is_hit blocks cs storage_id uid used)
]

pub has_object-rm_blocks :
    (hits : List DeletedBlock) (storage_id : ℕ) (uid : BlockUid) (objects : List (ℕ × BlockUid))
    → has_object storage_id uid (rm_blocks hits objects)
      ≡ (has_object storage_id uid objects && not (is_hit hits storage_id uid))
has_object-rm_blocks hits storage_id uid [] = refl
has_object-rm_blocks hits storage_id uid (o ∷ objects) =
    let rest = has_object-rm_blocks hits storage_id uid objects in
    elim (Bool-cases (o.0 == storage_id && uid_eq o.1 uid)) [
      | inl e ↦
          let place : o.0 ≡ storage_id = (==_iff o.0 storage_id).0 (ground (arith, e)) in
          let is : o.1 ≡ uid = (uid_eq_iff o.1 uid).0 (ground (arith, e)) in
          let same : is_hit hits o.0 o.1 ≡ is_hit hits storage_id uid =
            ap (λ i. is_hit hits i o.1) place ∙ ap (is_hit hits storage_id) is in
          ground (arith, rest, same)
      | inr e ↦ ground (arith, rest)
    ]

-- After a cleanup, an object that some block refers to is where it was.
pub cleanup_safe :
    (limit cut_off fuel : ℕ) (s t : State) (storage_id : ℕ) (uid : BlockUid)
    → cleanup limit cut_off fuel s ≡ some t
    → is_used s.blocks uid ≡ true
    → has_object storage_id uid t.objects ≡ has_object storage_id uid s.objects
unfolding cleanup cleanup_round
cleanup_safe limit cut_off zero s t storage_id uid e used = absurd (ground arith)
cleanup_safe limit cut_off (suc fuel) s t storage_id uid e used =
    let candidates = delete_candidates limit cut_off s.deleted_blocks in
    elim (cleanup-step limit cut_off fuel s t e) [
      | inl (_, same) ↦ ap (λ w. has_object storage_id uid w.objects) (sym same)
      | inr rest ↦
          let later =
            cleanup_safe limit cut_off fuel (cleanup_round candidates s) t storage_id uid rest
              used in
          let now = has_object-rm_blocks (hit_list s.blocks candidates) storage_id uid s.objects in
          let spared = used-is_hit s.blocks candidates storage_id uid used in
          later ∙ now ∙ rw spared (ground arith)
    ]
