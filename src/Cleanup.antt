-- ===== src/Cleanup.antt =====
-- `Benji.cleanup` of src/benji/benji.py with `DeletedBlock.get_unused_block_uids` of
-- src/benji/database.py: rounds over the candidates for deletion, as many at a time as a limit says
-- (250), which remove objects from the storages that no block refers to.
pub mod Safe
pub mod Finish
pub mod Complete
pub mod Removed
use benji.Prelude.{
  ℕ, zero, suc, ◌==◌, ◌≡◌, Bool, ◌&&◌, not, true, false, Option, none, some, List, [], ◌∷◌,
  if◌then◌else◌, ltb, take, any, filter,
}
use benji.Storage.Uid.{BlockUid, uid_eq, maybe_uid_eq}
use benji.Database.{Block, DeletedBlock}

-- The blocks, the candidates, and the objects, each with its storage.
pub record State : Type 0 where
  pub blocks : List Block
  pub deleted_blocks : List DeletedBlock
  pub objects : List (ℕ × BlockUid)

-- Some block has the uid.
abbrev pub is_used : List Block → BlockUid → Bool
is_used blocks uid = any (λ b. maybe_uid_eq b.uid uid) blocks

-- `DeletedBlock.date < cut_off_date`, with a limit.
abbrev pub delete_candidates : ℕ → ℕ → List DeletedBlock → List DeletedBlock
delete_candidates limit cut_off rows = take limit (filter (λ d. ltb d.date cut_off) rows)

abbrev pub false_positives : List Block → List DeletedBlock → List DeletedBlock
false_positives blocks = filter (λ d. is_used blocks d.uid)

abbrev pub hit_list : List Block → List DeletedBlock → List DeletedBlock
hit_list blocks = filter (λ d. not (is_used blocks d.uid))

-- `DeletedBlock.uid.in_(uids)`
abbrev pub in_uids : List DeletedBlock → BlockUid → Bool
in_uids ds uid = any (λ c. uid_eq c.uid uid) ds

abbrev pub delete_uids : List DeletedBlock → List DeletedBlock → List DeletedBlock
delete_uids ds = filter (λ d. not (in_uids ds d.uid))

-- `rm_block_async` for each uid in the list of its storage; one that is not there is passed over.
abbrev pub is_hit : List DeletedBlock → ℕ → BlockUid → Bool
is_hit ds storage_id uid = any (λ c. c.storage_id == storage_id && uid_eq c.uid uid) ds

abbrev pub rm_blocks : List DeletedBlock → List (ℕ × BlockUid) → List (ℕ × BlockUid)
rm_blocks ds = filter (λ o. not (is_hit ds o.0 o.1))

unfoldable pub cleanup_round : List DeletedBlock → State → State
cleanup_round candidates s =
    let hits = hit_list s.blocks candidates in
    record s {
      deleted_blocks =
          delete_uids hits (delete_uids (false_positives s.blocks candidates) s.deleted_blocks);
      objects = rm_blocks hits s.objects;
    }

-- On fuel; `none` when it runs out.
unfoldable pub cleanup : ℕ → ℕ → ℕ → State → Option State
cleanup limit cut_off zero s = none
cleanup limit cut_off (suc fuel) s =
    let candidates = delete_candidates limit cut_off s.deleted_blocks in
    let rest = cleanup limit cut_off fuel (cleanup_round candidates s) in
    elim candidates [ [] ↦ some s | _ ∷ _ ↦ rest ]

-- An object is in a storage.
abbrev pub has_object : ℕ → BlockUid → List (ℕ × BlockUid) → Bool
has_object storage_id uid = any (λ o. o.0 == storage_id && uid_eq o.1 uid)
