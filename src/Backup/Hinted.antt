-- ===== src/Backup/Hinted.antt =====
-- Backups of a whole source, with hints and without.
use benji.Prelude.{
  length-drop, length-take, ℕ, ◌≡◌, ◌*◌, ◌<◌, refl, sym, ap, ◌∙◌, Bool, ◌||◌, not, true, false,
  some, List, [], arith, Text, contains, take, drop, any, Option-cases, inl, inr, All, All-range,
  range-All, length, range_from, contains-range_from,
}
use benji.Database.{
  all_blocks, block_length, Version, Block, Database, get_block_by_idx, blocks_count,
}
use benji.Database.Blocks.{get_block_by_idx_key}
use benji.Backup.{Bytes, zeros, Objects, State, Reach}
use benji.Backup.Content.{ReadIsSound}
use benji.Backup.Queue.{is_read, Keeps, IsPlanned}
use benji.Backup.Result.{
  content, IsStoredFor, is_own, found-is_own, AreForeign, queued, backup_content,
}
use benji.Backup.Hints.{Hint, read_blocks, sparse_blocks, has_read, has_sparse, blocks_from_hints}

-- The part of the source that is a block's.
abbrev pub block_data : Version → Bytes → ℕ → Bytes
block_data v source k = take (block_length v k) (drop (k * v.block_size) source)

pub length-block_data :
    (v : Version) (source : Bytes) (k : ℕ)
    → length source ≡ v.size
    → length (block_data v source k) ≡ block_length v k
length-block_data v source k size =
    length-take (block_length v k) (drop (k * v.block_size) source)
      (ground (arith, length-drop (k * v.block_size) source))

neither : (a b : Bool) → (a || not b) ≡ false → (a ≡ false) × (b ≡ true)
neither a b h = ground arith

-- Every block of the version has the size that its place gives it.
abbrev pub IsSized : Version → Database → Type 0
IsSized v db = All (λ b. b.size ≡ block_length v b.idx) (all_blocks v (blocks_count v) db.blocks)

module _ (digest : Bytes → Text) (v : Version) (source : Bytes) (db : Database)
    (objects : Objects) where
  ReadIsSound-of_size :
      (b : Block)
      → length source ≡ v.size
      → b.size ≡ block_length v b.idx
      → ReadIsSound digest v (block_data v source) (blocks_count v) source b
  ReadIsSound-of_size b size sized = (
    ap (λ n. take n (drop (b.idx * v.block_size) source)) sized,
    sized ∙ sym (length-block_data v source b.idx size),
  )

  sized_at :
      (k : ℕ)
      → k < blocks_count v
      → IsSized v db
      → (get_block_by_idx v k db.blocks).size ≡ block_length v k
  sized_at k in_range sized =
      range-All (λ b. b.size ≡ block_length v b.idx) (λ i. get_block_by_idx v i db.blocks)
        (blocks_count v) k in_range sized
      ∙ ap (block_length v) (get_block_by_idx_key v k db.blocks).0

  -- Without hints, all blocks are read.
  full_plan :
      length source ≡ v.size
      → IsSized v db
      → All
          (IsPlanned v
            (range_from 0 (blocks_count v))
            []
            digest
            (block_data v source)
            (blocks_count v)
            source
            objects)
          (all_blocks v (blocks_count v) db.blocks)
  full_plan size sized =
      All-range _ (λ i. get_block_by_idx v i db.blocks) (blocks_count v)
        (λ k in_range.
          let b = get_block_by_idx v k db.blocks in
          let key = (get_block_by_idx_key v k db.blocks).0 in
          let listed : contains (range_from 0 (blocks_count v)) b.idx ≡ true =
            rw key (contains-range_from 0 (blocks_count v) k ∙ ground arith) in
          let read : is_read v (range_from 0 (blocks_count v)) [] b ≡ true = rw listed refl in
          record {
            read = λ _.
                ReadIsSound-of_size b size
                  (sized_at k in_range sized ∙ ap (block_length v) (sym key));
            sparse = λ skipped. absurd cc;
            kept = λ skipped. absurd cc;
          })

  -- Given a digest that tells data apart, a source as long as the version, blocks with the
  -- sizes that their places give them, a storage that has the data of all usable rows, with the
  -- sizes and checksums that the rows say, and a table in which no row has a uid of the version:
  -- after a complete backup without hints each block of the version stands for its part of the
  -- source, in whatever order reads and writes complete.
  pub full_backup :
      ((a b : Bytes) → digest a ≡ digest b → a ≡ b)
      → length source ≡ v.size
      → IsSized v db
      → All (IsStoredFor digest v db objects) db.blocks
      → AreForeign v db.blocks
      → (end : State)
      → Reach digest v source
          (queued digest v
            (block_data v source)
            (blocks_count v)
            source
            (range_from 0 (blocks_count v))
            []
            db
            objects)
          end
      → end.reads ≡ []
      → end.writes ≡ []
      → (k : ℕ) → k < blocks_count v
      → content end.objects (get_block_by_idx v k end.db.blocks) ≡ some (block_data v source k)
  full_backup injective size sized rows foreign =
      backup_content digest v (block_data v source) (blocks_count v) source
        (range_from 0 (blocks_count v)) [] db objects injective rows foreign (full_plan size sized)

  Keeps-of_content :
      (hints : List Hint) (b : Block) (bytes : Bytes)
      → is_own v b ≡ false
      → content objects b ≡ some bytes
      → Keeps v
          (read_blocks v.block_size hints)
          (sparse_blocks v.block_size hints)
          digest
          (block_data v source)
          (blocks_count v)
          source
          objects
          b
          bytes
  Keeps-of_content hints b bytes foreign stands = elim (Option-cases b.uid) [
    | inl e ↦ let here : some (zeros b.size) ≡ some bytes = rw e at stands in inl (e, cc)
    | inr (uid, e) ↦ inr (uid, e, rw e at stands, rw e at foreign)
  ]

  module _ (hints : List Hint) where
    -- What the hints say of the source: a block that no hint touches is as its row says, and one that
    -- is touched only by hints that say there is no data, and that cover it, is zero.
    pub record AreTrue : Type 0 where
      pub unchanged :
          (k : ℕ)
          → k < blocks_count v
          → any (has_read v.block_size k) hints ≡ false
          → any (has_sparse v.block_size k) hints ≡ false
          → (get_block_by_idx v k db.blocks).is_valid ≡ true
          → content objects (get_block_by_idx v k db.blocks) ≡ some (block_data v source k)
      pub empty :
          (k : ℕ)
          → k < blocks_count v
          → any (has_read v.block_size k) hints ≡ false
          → any (has_sparse v.block_size k) hints ≡ true
          → block_data v source k ≡ zeros (block_length v k)

    hinted_plan :
        0 < v.block_size
        → length source ≡ v.size
        → IsSized v db
        → AreTrue
        → AreForeign v db.blocks
        → All
            (IsPlanned v
              (read_blocks v.block_size hints)
              (sparse_blocks v.block_size hints)
              digest
              (block_data v source)
              (blocks_count v)
              source
              objects)
            (all_blocks v (blocks_count v) db.blocks)
    hinted_plan pos size sized said foreign =
        All-range _ (λ i. get_block_by_idx v i db.blocks) (blocks_count v)
          (λ k in_range.
            let b = get_block_by_idx v k db.blocks in
            let key = (get_block_by_idx_key v k db.blocks).0 in
            let (in_read, in_sparse) = blocks_from_hints v.block_size k hints pos in
            let fits : b.size ≡ block_length v b.idx =
              sized_at k in_range sized ∙ ap (block_length v) (sym key) in
            let same = ap (contains (read_blocks v.block_size hints)) key in
            let same' = ap (contains (sparse_blocks v.block_size hints)) key in
            record {
              read = λ _. ReadIsSound-of_size b size fits;
              sparse = λ skipped listed.
                  let (unread, valid) = neither _ b.is_valid skipped in
                  let no_read = sym in_read ∙ sym same ∙ unread in
                  let yes = sym in_sparse ∙ sym same' ∙ listed in
                  ap zeros (sized_at k in_range sized)
                  ∙ sym (said.empty k in_range no_read yes)
                  ∙ ap (block_data v source) (sym key);
              kept = λ skipped unlisted.
                  let (unread, valid) = neither _ b.is_valid skipped in
                  let no_read = sym in_read ∙ sym same ∙ unread in
                  let no = sym in_sparse ∙ sym same' ∙ unlisted in
                  Keeps-of_content hints b (block_data v source b.idx)
                    (found-is_own v v k db.blocks foreign)
                    (said.unchanged k in_range no_read no valid
                      ∙ ap (λ i. some (block_data v source i)) (sym key));
            })

    -- Given a digest that tells data apart, a block size that is not 0, a source as long as
    -- the version, blocks with the sizes that their places give them, hints that are true,
    -- a storage that has the data of all usable rows, with the sizes and checksums that the
    -- rows say, and a table in which no row has a uid of the version: after a complete backup
    -- with the hints each block of the version stands for its part of the source, in whatever
    -- order reads and writes complete. Hints are true if each valid block that none of them
    -- touches stands for its part of the source already, and the source is zero in each block
    -- that hints touch, if all that touch it say that there is no data and cover the block.
    pub hinted_backup :
        ((a b : Bytes) → digest a ≡ digest b → a ≡ b)
        → 0 < v.block_size
        → length source ≡ v.size
        → IsSized v db
        → AreTrue
        → All (IsStoredFor digest v db objects) db.blocks
        → AreForeign v db.blocks
        → (end : State)
        → Reach digest v source
            (queued digest v
              (block_data v source)
              (blocks_count v)
              source
              (read_blocks v.block_size hints)
              (sparse_blocks v.block_size hints)
              db
              objects)
            end
        → end.reads ≡ []
        → end.writes ≡ []
        → (k : ℕ) → k < blocks_count v
        → content end.objects (get_block_by_idx v k end.db.blocks) ≡ some (block_data v source k)
    hinted_backup injective pos size sized said rows foreign =
        backup_content digest v (block_data v source) (blocks_count v) source
          (read_blocks v.block_size hints) (sparse_blocks v.block_size hints) db objects injective
          rows foreign (hinted_plan pos size sized said foreign)
