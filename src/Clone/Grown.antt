-- ===== src/Clone/Grown.antt =====
-- A block that grows from a base version to a new one, in a backup with hints.
use benji.Prelude.{
  ℕ, ◌==◌, ◌≡◌, ◌<◌, ap, ◌∙◌, true, false, none, some, List, Text, any, All, All-range, Bool-cases,
  inl, inr, ◌⊎◌, ==_iff,
}
use benji.Database.{
  all_blocks, block_length, Version, Block, Database, get_block_by_idx, blocks_count, row,
  sparse_block,
}
use benji.Database.Blocks.{get_block_by_idx_key}
use benji.Backup.{Bytes, zeros, Objects, State, Reach}
use benji.Backup.Frame.{queue_blocks-IsAway, reached-IsAway}
use benji.Backup.Hints.{Hint, read_blocks, sparse_blocks, has_read, has_sparse, blocks_from_hints}
use benji.Backup.Hinted.{block_data}
use benji.Backup.Result.{content, queued}
use benji.Clone.{create_version}
use benji.Clone.Result.{grown-is_sparse}

-- Among the blocks of a version, those with an index are the one that is found.
only_found :
    (v : Version) (blocks : List Block) (k n : ℕ)
    → (get_block_by_idx v k blocks).is_valid ≡ true
    → All
        (λ b. ((b.idx == k) ≡ false) ⊎ ((b.idx ≡ k) × (b.is_valid ≡ true)))
        (all_blocks v n blocks)
only_found v blocks k n sound =
    All-range _ (λ i. get_block_by_idx v i blocks) n
      (λ i _.
        let key = (get_block_by_idx_key v i blocks).0 in
        elim (Bool-cases (i == k)) [
          | inl e ↦
              let same : i ≡ k = (==_iff i k).0 e in
              let found = ap (λ j. get_block_by_idx v j blocks) same in
              inr (key ∙ same, ap (λ b. b.is_valid) found ∙ sound)
          | inr e ↦ inl (ap (λ j. j == k) key ∙ e)
        ])

-- For a block size that is not 0: a block that is shorter in the base version and a full one in the new
-- version, which `create_version` makes and which had no row for it before, and that no hint touches.
-- In every state that a backup with the hints reaches, whatever is in the source and in the storage, it
-- is not queued for reading, and it stands for zeros.
pub grown_block_lost :
    (digest : Bytes → Text) (v base : Version) (source : Bytes) (work_package : ℕ) (db : Database)
    (objects : Objects) (hints : List Hint) (k : ℕ) (t : State)
    → 0 < v.block_size
    → k < blocks_count v
    → k < blocks_count base
    → row v.id k db.blocks ≡ none
    → (get_block_by_idx base k db.blocks).size < v.block_size
    → block_length v k ≡ v.block_size
    → any (has_read v.block_size k) hints ≡ false
    → any (has_sparse v.block_size k) hints ≡ false
    → Reach digest v source
        (queued digest v
          (block_data v source)
          (blocks_count v)
          source
          (read_blocks v.block_size hints)
          (sparse_blocks v.block_size hints)
          (record db { blocks = create_version v (some base) work_package db.blocks })
          objects)
        t
    → All (λ b. (b.idx == k) ≡ false) t.reads
      × (content t.objects (get_block_by_idx v k t.db.blocks) ≡ some (zeros v.block_size))
grown_block_lost digest v base source work_package db objects hints k t pos in_range in_base fresh
      shorter full no_read no_sparse run =
    let blocks = create_version v (some base) work_package db.blocks in
    let lost : get_block_by_idx v k blocks ≡ sparse_block v k =
      grown-is_sparse v base work_package db.blocks k in_range in_base fresh shorter full in
    let sound : (get_block_by_idx v k blocks).is_valid ≡ true = ap (λ b. b.is_valid) lost in
    let (in_read, in_sparse) = blocks_from_hints v.block_size k hints pos in
    let first =
      queue_blocks-IsAway v k (sparse_block v k) (read_blocks v.block_size hints)
        (sparse_blocks v.block_size hints) (all_blocks v (blocks_count v) blocks) _
        (in_read ∙ no_read) (in_sparse ∙ no_sparse) (only_found v blocks k (blocks_count v) sound)
        (record { row = lost; reads = tt; writes = tt }) in
    let last = reached-IsAway v k (sparse_block v k) digest source run first in
    (last.reads, ap (content t.objects) last.row)
