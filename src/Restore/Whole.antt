-- ===== src/Restore/Whole.antt =====
-- A restored target is the source of the backup.
use benji.Prelude.{
  ℕ, zero, suc, map, any, Bool-cases, ◌==◌, ◌≡◌, ◌+◌, ◌≤◌, ◌<◌, refl, sym, ap, ◌∙◌, Bool, true,
  false, some, List, [], arith, Text, take, length, All, All-range, inl, inr, range_from,
}
use benji.Storage.Uid.{BlockUid}
use benji.Database.{all_blocks, Version, Block, Database, get_block_by_idx, blocks_count}
use benji.Database.Blocks.{get_block_by_idx_key}
use benji.Backup as B
use benji.Backup.{Bytes, zeros, Objects}
use benji.Backup.Result.{content, IsStoredFor, AreForeign, queued}
use benji.Backup.Hinted.{block_data, IsSized, full_backup}
use benji.Restore.{Metadata, State, queue_blocks, Reach}
use benji.Restore.Writes.{all_agree}
use benji.Restore.Result.{is_block, is_pending, BlockIsSound, IsSound, reached-IsSound}
use benji.Restore.Queue.{IsBlank, queue_blocks-IsSound}

pub record IsDone (s : State) : Type 0 where
  pub sparse_writes : s.sparse_writes ≡ []
  pub reads : s.reads ≡ []
  pub writes : s.writes ≡ []

-- A restore begins with an open target, and all blocks are looked at before the first read is taken.
abbrev pub opened : Database → Bytes → State
opened db target = record {
  target = target;
  sparse_writes = [];
  reads = [];
  writes = [];
  db = db;
  failed = false;
}

abbrev pub restoring : Version → Bool → Database → Bytes → State
restoring v sparse db target =
    queue_blocks v sparse (all_blocks v (blocks_count v) db.blocks) (opened db target)

listed :
    (v : Version) (bs : List Block) (start n k : ℕ)
    → start ≤ k
    → k < start + n
    → any (is_block k) (map (λ i. get_block_by_idx v i bs) (range_from start n)) ≡ true
listed v bs start zero k low high = absurd (omega arith)
listed v bs start (suc n) k low high = elim (Bool-cases (start == k)) [
  | inl e ↦
      let key = (get_block_by_idx_key v start bs).0 in
      let here : is_block k (get_block_by_idx v start bs) ≡ true = rw key e in rw here refl
  | inr e ↦
      let above : start + 1 ≤ k = ground arith in
      let there = listed v bs (start + 1) n k above (omega arith) in ground (arith, there)
]

module _ (digest : Bytes → Text) (metadata : BlockUid → Metadata) (v : Version)
    (source : Bytes) where
  blocks-AreSound :
      (db : Database) (objects : Objects)
      → ((k : ℕ)
          → k < blocks_count v
          → content objects (get_block_by_idx v k db.blocks) ≡ some (block_data v source k))
      → All
          (BlockIsSound digest metadata objects v source)
          (all_blocks v (blocks_count v) db.blocks)
  blocks-AreSound db objects h =
      All-range _ (λ k. get_block_by_idx v k db.blocks) (blocks_count v)
        (λ k in_range.
          let key = (get_block_by_idx_key v k db.blocks).0 in
          (omega (arith, key), h k in_range ∙ ap (λ i. some (block_data v source i)) (sym key)))

  -- Given a block size that is not 0 and blocks of a version that stand for their parts of a
  -- source as long as the version: a complete restore, to a target that is as long at least,
  -- and that is zero if sparse blocks are to be skipped, does not fail, and the target is then
  -- the source, as far as the version goes, in whatever order reads and writes complete and
  -- whatever the metadata say.
  pub restored_content :
      (objects : Objects) (db : Database) (sparse : Bool) (target : Bytes)
      → 0 < v.block_size
      → length source ≡ v.size
      → v.size ≤ length target
      → (sparse ≡ true → IsBlank v (opened db target))
      → ((k : ℕ)
          → k < blocks_count v
          → content objects (get_block_by_idx v k db.blocks) ≡ some (block_data v source k))
      → (end : State) → Reach digest metadata objects v (restoring v sparse db target) end
      → IsDone end
      → (end.failed ≡ false) × (take v.size end.target ≡ source)
  restored_content objects db sparse target pos size room blank blocks end run done =
      let queue : IsSound digest metadata objects v source (all_blocks v (blocks_count v) db.blocks)
          (opened db target) =
        record {
          sparse = tt;
          queue = tt;
          jobs = tt;
          room = room;
          going = refl;
          progress = λ k in_range.
              let there = listed v db.blocks 0 (blocks_count v) k (omega arith) (omega arith) in
              inl (ground (arith, there));
        } in
      let first =
        queue_blocks-IsSound digest metadata objects v source pos size sparse
          (all_blocks v (blocks_count v) db.blocks) (opened db target) blank
          (blocks-AreSound db objects blocks) queue in
      let last = reached-IsSound digest metadata objects v source size pos run first in
      (
        last.going,
        all_agree v source end.target pos size last.room (λ k in_range.
            elim (last.progress k in_range) [
              | inr agrees ↦ agrees
              | inl busy ↦
                  let idle : is_pending [] end k ≡ false =
                    rw (done.sparse_writes, done.reads, done.writes) refl in
                  absurd cc
            ]),
      )

  -- Given a digest that tells data apart, a block size that is not 0, a source as long as the
  -- version, blocks with the sizes that their places give them, a storage that has the data of
  -- all usable rows, with the sizes and checksums that the rows say, and a table in which no row
  -- has a uid of the version: a complete backup without hints, and then a complete restore of the
  -- version, to a target that is as long at least, and that is zero if sparse blocks are to be
  -- skipped, do not fail and give the source back, in whatever order the reads and writes of
  -- both complete.
  pub backup_restore :
      ((a b : Bytes) → digest a ≡ digest b → a ≡ b)
      → 0 < v.block_size
      → length source ≡ v.size
      → (db : Database) (objects : Objects) → IsSized v db
      → All (IsStoredFor digest v db objects) db.blocks
      → AreForeign v db.blocks
      → (after : B.State)
      → B.Reach digest v source
          (queued digest v
            (block_data v source)
            (blocks_count v)
            source
            (range_from 0 (blocks_count v))
            []
            db
            objects)
          after
      → after.reads ≡ []
      → after.writes ≡ []
      → (sparse : Bool) (target : Bytes) → v.size ≤ length target
      → (sparse ≡ true → IsBlank v (opened after.db target))
      → (end : State)
      → Reach digest metadata after.objects v (restoring v sparse after.db target) end
      → IsDone end
      → (end.failed ≡ false) × (take v.size end.target ≡ source)
  backup_restore injective pos size db objects sized rows foreign after backed no_reads no_writes
        sparse target room blank =
      restored_content after.objects after.db sparse target pos size room blank (
        full_backup digest v source db objects injective size sized rows foreign after backed
          no_reads no_writes)
