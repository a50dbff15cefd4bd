-- ===== src/Restore/Missing.antt =====
-- A restore of a version with an object that is not there.
use benji.Prelude.{
  any-append, ℕ, zero, suc, ◌==◌, ◌≡◌, ◌+◌, ◌≤◌, ◌<◌, refl, ap, Bool, true, ◌||◌, ◌&&◌, none, some,
  List, [], ◌∷◌, ◌++◌, map, arith, Text, if◌then◌else◌, Bool-cases, inl, inr, any, is_some,
  range_from, ==_iff,
}
use benji.Storage.Uid.{BlockUid}
use benji.Database.{all_blocks, Version, Block, Database, get_block_by_idx, blocks_count}
use benji.Backup.{Bytes, Objects, get_object}
use benji.Restore.{Metadata, State, object_of, queue_block, queue_blocks, Reach}
use benji.Restore.Whole.{IsDone, opened, restoring}
use benji.Restore.Finish.{is_missing, reached-IsDoomed}

reads-queue_block :
    (v : Version) (sparse : Bool) (b : Block) (s : State)
    → (queue_block v sparse b s).reads ≡ (if is_some b.uid then s.reads ++ b ∷ [] else s.reads)
reads-queue_block v sparse b s = ground arith

module _ (digest : Bytes → Text) (metadata : BlockUid → Metadata) (objects : Objects) (v : Version)
    (sparse : Bool) where
  abbrev is_lost : Block → Bool
  is_lost b = is_some b.uid && is_missing digest metadata objects v b

  abbrev in_reads : State → Bool
  in_reads s = any (is_missing digest metadata objects v) s.reads

  queue_block-lost :
      (b : Block) (bs : List Block) (s : State)
      → (any is_lost (b ∷ bs) || in_reads s) ≡ true
      → (any is_lost bs || in_reads (queue_block v sparse b s)) ≡ true
  queue_block-lost b bs s h =
      let reads =
        ap (any (is_missing digest metadata objects v)) (reads-queue_block v sparse b s) in
      let more = any-append (is_missing digest metadata objects v) s.reads (b ∷ []) in
      ground (arith, reads, more)

  queue_blocks-lost :
      (bs : List Block) (s : State)
      → (any is_lost bs || in_reads s) ≡ true
      → in_reads (queue_blocks v sparse bs s) ≡ true
  unfolding queue_blocks
  queue_blocks-lost [] s h = h
  queue_blocks-lost (b ∷ bs) s h =
      queue_blocks-lost bs (queue_block v sparse b s) (queue_block-lost b bs s h)

  any-blocks :
      (db : Database) (p : Block → Bool) (start n k : ℕ)
      → start ≤ k
      → k < start + n
      → p (get_block_by_idx v k db.blocks) ≡ true
      → any p (map (λ i. get_block_by_idx v i db.blocks) (range_from start n)) ≡ true
  any-blocks db p start zero k low high h = absurd (omega arith)
  any-blocks db p start (suc n) k low high h = elim (Bool-cases (start == k)) [
    | inl e ↦
        let same : start ≡ k = (==_iff start k).0 e in
        let here : p (get_block_by_idx v start db.blocks) ≡ true = rw same h in rw here refl
    | inr e ↦
        let above : start + 1 ≤ k = ground arith in
        let there = any-blocks db p (start + 1) n k above (omega arith) h in ground (arith, there)
  ]

  lost :
      (b : Block) (uid : BlockUid)
      → b.uid ≡ some uid
      → get_object uid objects ≡ none
      → is_lost b ≡ true
  lost b uid u gone = simp (object_of, u, gone) refl

  -- A restore of a version that has a block whose object is not in the storage fails, in whatever
  -- order reads and writes complete.
  pub missing_object_fails :
      (db : Database) (target : Bytes) (k : ℕ) (uid : BlockUid)
      → k < blocks_count v
      → (get_block_by_idx v k db.blocks).uid ≡ some uid
      → get_object uid objects ≡ none
      → (end : State) → Reach digest metadata objects v (restoring v sparse db target) end
      → IsDone end
      → end.failed ≡ true
  missing_object_fails db target k uid in_range u gone end run done =
      let b = get_block_by_idx v k db.blocks in
      let there =
        any-blocks db is_lost 0 (blocks_count v) k (omega arith) (omega arith)
          (lost b uid u gone) in
      let first =
        queue_blocks-lost (all_blocks v (blocks_count v) db.blocks) (opened db target)
          (ground (arith, there)) in
      elim (reached-IsDoomed digest metadata objects v run (inr first)) [
        | inl failed ↦ failed
        | inr missing ↦
            let none_left = ap (any (is_missing digest metadata objects v)) done.reads in
            absurd (ground (arith, none_left))
      ]
