-- ===== src/Backup/Result.antt =====
-- What a version stands for after a backup, however its reads and writes are interleaved.
use benji.Prelude.{
  ℕ, zero, suc, ◌==◌, ◌≡◌, ◌+◌, ◌≤◌, ◌<◌, refl, ap, true, Option, none, some, List, [], map, arith,
  Text, if◌then◌else◌, count, All, All-map, All-both, Bool, false, Bool-cases, Option-cases, inl,
  inr, ◌⊎◌, length, ltb, range_from, ==_iff,
}
use benji.Storage.Uid.{BlockUid}
use benji.Database.{all_blocks, Version, Block, Database, is_usable, get_block_by_idx, row, is_row}
use benji.Database.Blocks.{All-find, get_block_by_idx_key}
use benji.Backup.{
  Bytes, zeros, Objects, get_object, State, queue_blocks, Step, read, write, Reach, here, next,
}
use benji.Backup.Content.{block_is, load, RowIsSound, Holds, IsSound}
use benji.Backup.Steps.{handle_read-IsSound}
use benji.Backup.Writes.{handle_write-IsSound}
use benji.Backup.Queue.{IsPlanned, queue_blocks-IsSound}

-- What a block stands for: zeros, or the object with its uid.
abbrev pub content : Objects → Block → Option Bytes
content objects b = elim b.uid [ none ↦ some (zeros b.size) | some uid ↦ get_object uid objects ]

count-below :
    (v : Version) (bs : List Block) (start n k : ℕ)
    → k < start
    → count (block_is k) (map (λ i. get_block_by_idx v i bs) (range_from start n)) ≡ 0
count-below v bs start zero k h = refl
count-below v bs start (suc n) k h =
    let key = (get_block_by_idx_key v start bs).0 in
    let other : block_is k (get_block_by_idx v start bs) ≡ false = rw key (ground arith) in
    rw other (omega (arith, count-below v bs (start + 1) n k (omega arith)))

count-all :
    (v : Version) (bs : List Block) (start n k : ℕ)
    → start ≤ k
    → count (block_is k) (map (λ i. get_block_by_idx v i bs) (range_from start n))
      ≡ (if ltb k (start + n) then 1 else 0)
count-all v bs start zero k h = ground arith
count-all v bs start (suc n) k h =
    let key = (get_block_by_idx_key v start bs).0 in
    elim (Bool-cases (start == k)) [
      | inl e ↦
          let this : block_is k (get_block_by_idx v start bs) ≡ true = rw key e in
          rw this (ground (arith, count-below v bs (start + 1) n k))
      | inr e ↦
          let other : block_is k (get_block_by_idx v start bs) ≡ false = rw key e in
          rw other (ground (arith, count-all v bs (start + 1) n k))
    ]

module _ (digest : Bytes → Text) (v : Version) (T : ℕ → Bytes) (n : ℕ) (source : Bytes) where
  Step-IsSound :
      ((a b : Bytes) → digest a ≡ digest b → a ≡ b)
      → {s t : State} → Step digest v source s t
      → IsSound digest v T n source [] s
      → IsSound digest v T n source [] t
  Step-IsSound injective (read before after b s e) h =
      handle_read-IsSound digest v T n injective source [] before after b s e h
  Step-IsSound injective (write before after j s e) h =
      handle_write-IsSound digest v T n source [] before after j s e h

  reached-IsSound :
      ((a b : Bytes) → digest a ≡ digest b → a ≡ b)
      → {s t : State} → Reach digest v source s t
      → IsSound digest v T n source [] s
      → IsSound digest v T n source [] t
  reached-IsSound injective here h = h
  reached-IsSound injective (next r st) h =
      Step-IsSound injective st (reached-IsSound injective r h)

-- The rows that a backup finds: a usable one is sparse, or its data is in the storage.
abbrev pub IsStoredFor : (Bytes → Text) → Version → Database → Objects → Block → Type 0
IsStoredFor digest v db objects b =
    is_usable db.versions v.storage_id b ≡ true
    → ((b.uid ≡ none) × (b.checksum ≡ none))
      ⊎ ((uid : BlockUid) × (bytes : Bytes) × (b.uid ≡ some uid)
          × (get_object uid objects ≡ some bytes)
          × (b.checksum ≡ some (digest bytes))
          × (b.size ≡ length bytes))

-- Whether the uid of a row is one that a backup of the version may give.
abbrev pub is_own : Version → Block → Bool
is_own v b = elim b.uid [ none ↦ false | some uid ↦ uid.left == v.id ]

-- No row has a uid of the version, so that no object of a row is overwritten by a backup of it.
abbrev pub AreForeign : Version → List Block → Type 0
AreForeign v = All (λ b. is_own v b ≡ false)

-- A block of a version has such a uid only if a row has.
pub found-is_own :
    (v base : Version) (k : ℕ) (blocks : List Block)
    → AreForeign v blocks
    → is_own v (get_block_by_idx base k blocks) ≡ false
unfolding get_block_by_idx
found-is_own v base k blocks foreign = elim (Option-cases (row base.id k blocks)) [
  | inl e ↦ rw e refl
  | inr (r, e) ↦ rw e (All-find (λ b. is_own v b ≡ false) (is_row base.id k) blocks r foreign e).0
]

module _ (digest : Bytes → Text) (v : Version) (T : ℕ → Bytes) (n : ℕ) (source : Bytes)
    (read_blocks sparse_blocks : List ℕ) (db : Database) (objects : Objects) where
  abbrev start : State
  start = record { db = db; objects = objects; reads = []; writes = [] }

  -- The state when all blocks are looked at, and nothing is read yet.
  abbrev pub queued : State
  queued = queue_blocks v read_blocks sparse_blocks (all_blocks v n db.blocks) start

  RowIsSound-of_IsStoredFor :
      (todo : List Block) (b : Block)
      → IsStoredFor digest v db objects b × (is_own v b ≡ false)
      → RowIsSound digest v T n todo start b
  RowIsSound-of_IsStoredFor todo b (h, foreign) usable = elim (h usable) [
    | inl sparse ↦ inl sparse
    | inr (uid, bytes, u, o, c, size) ↦ inr (
      uid,
      bytes,
      u,
      o,
      c,
      size,
      λ i e.
          let left : uid.left ≡ v.id = ap (λ w. w.left) e in
          let same : (uid.left == v.id) ≡ true = (==_iff uid.left v.id).1 left in
          let other : (uid.left == v.id) ≡ false = rw u at foreign in cc,
    )
  ]

  start-IsSound :
      All (IsStoredFor digest v db objects) db.blocks
      → AreForeign v db.blocks
      → IsSound digest v T n source (all_blocks v n db.blocks) start
  start-IsSound rows foreign = record {
    rows =
        All-map db.blocks (λ b. RowIsSound-of_IsStoredFor (all_blocks v n db.blocks) b)
          (All-both (IsStoredFor digest v db objects) (λ b. is_own v b ≡ false) db.blocks rows
            foreign);
    jobs = tt;
    queue = tt;
    once = λ k. ground (arith, count-all v db.blocks 0 n k);
    progress = λ k in_range. inl (ground (arith, count-all v db.blocks 0 n k));
  }

  untouched :
      (low n : ℕ)
      → All
          (λ b. get_block_by_idx v b.idx db.blocks ≡ b)
          (map (λ k. get_block_by_idx v k db.blocks) (range_from low n))
  untouched low zero = tt
  untouched low (suc n) =
      let key = (get_block_by_idx_key v low db.blocks).0 in
      (ap (λ i. get_block_by_idx v i db.blocks) key, untouched (low + 1) n)

  content-of_Holds :
      (s : State) (b : Block) (bytes : Bytes)
      → Holds digest v T n [] s b bytes
      → content s.objects b ≡ some bytes
  content-of_Holds s b bytes (inl (u, z)) = rw (content, u) (ap some z)
  content-of_Holds s b bytes (inr (uid, u, o, free)) = rw (content, u) o

  -- A backup of a version whose blocks can be planned so, into a storage that has the data of the
  -- rows, none of them under a uid of the version, ends with the version's blocks standing for their parts of the source, one and all, in
  -- whatever order reads and writes complete.
  pub backup_content :
      ((a b : Bytes) → digest a ≡ digest b → a ≡ b)
      → All (IsStoredFor digest v db objects) db.blocks
      → AreForeign v db.blocks
      → All
          (IsPlanned v read_blocks sparse_blocks digest T n source objects)
          (all_blocks v n db.blocks)
      → (end : State) → Reach digest v source queued end
      → end.reads ≡ []
      → end.writes ≡ []
      → (k : ℕ) → k < n
      → content end.objects (get_block_by_idx v k end.db.blocks) ≡ some (T k)
  backup_content injective rows foreign plans end run no_reads no_writes k in_range =
      let first =
        queue_blocks-IsSound v read_blocks sparse_blocks digest T n source
          (all_blocks v n db.blocks) start (start-IsSound rows foreign, untouched 0 n, plans) in
      let last = reached-IsSound digest v T n source injective run first in
      elim (last.progress k in_range) [
        | inl busy ↦ let idle : load [] end k ≡ 0 = ground arith in absurd (omega arith)
        | inr held ↦ content-of_Holds end (get_block_by_idx v k end.db.blocks) (T k) held
      ]
