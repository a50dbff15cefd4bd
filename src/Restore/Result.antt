-- ===== src/Restore/Result.antt =====
-- What is in the target of a restore, in whatever order its reads and writes complete.
use benji.Prelude.{
  ℕ, ◌==◌, ◌≡◌, ◌*◌, ◌≤◌, ◌<◌, refl, ap, ◌∙◌, Bool, ◌||◌, true, false, some, List, [], ◌∷◌, ◌++◌,
  arith, Text, maybe_eq, any, any-append, length, All, All-append, Bool-cases, Option-cases, inl,
  inr, ◌⊎◌, ==_iff,
}
use benji.Storage.Uid.{BlockUid}
use benji.Database.{Version, Block, Database, blocks_count}
use benji.Backup.{Bytes, Objects, get_object}
use benji.Backup.Result.{content}
use benji.Backup.Steps.{All-without}
use benji.Backup.Hinted.{block_data, length-block_data}
use benji.Restore.{
  write_at, Write, set_block_invalid, Metadata, check_block_metadata, State, mark, object_of,
  handle_read, handle_write, sparse_write, read, write, Reach, here, next,
}
use benji.Restore.Files.{byte}
use benji.Restore.Writes.{
  Agrees, WriteIsSound, block_length-le, room-write_at, written-Agrees, others-Agree,
  byte-block_data,
}

pub any-without {ℓ} :
    {A : Type ℓ} (p : A → Bool) (whole before after : List A) (x : A)
    → whole ≡ before ++ x ∷ after
    → any p whole ≡ (p x || any p (before ++ after))
any-without p whole before after x e =
    let front = any-append p before (x ∷ after) in
    let back = any-append p before after in ap (any p) e ∙ ground (arith, front, back)

abbrev pub writes_to : ℕ → Write → Bool
writes_to k w = w.idx == k

abbrev pub is_block : ℕ → Block → Bool
is_block k b = b.idx == k

-- A block is not looked at yet, not read yet, or not written yet.
abbrev pub is_pending : List Block → State → ℕ → Bool
is_pending todo s k =
    any (is_block k) todo
    || any (writes_to k) s.sparse_writes
    || any (is_block k) s.reads
    || any (writes_to k) s.writes

abbrev pub write_of : Block → Bytes → Write
write_of b bytes = record { idx = b.idx; bytes = bytes }

mark-db : (b : Block) (s : State) → (db : Database) × (mark b s ≡ record s { db = db })
mark-db b s = elim (Option-cases b.uid) [
  | inl e ↦ (s.db, rw e refl)
  | inr (uid, e) ↦ (set_block_invalid uid s.db, rw e refl)
]

module _ (digest : Bytes → Text) (metadata : BlockUid → Metadata) (objects : Objects)
    (v : Version) where
  -- Whatever the checks say, the data is written.
  pub handle_read-writes :
      (b : Block) (s : State) (uid : BlockUid) (bytes : Bytes)
      → object_of digest metadata objects v b ≡ some (uid, bytes)
      → (db : Database) × (handle_read digest metadata objects v b s
          ≡ record s { writes = s.writes ++ write_of b bytes ∷ []; db = db })
  unfolding handle_read
  handle_read-writes b s uid bytes e =
      let written : State = record s { writes = s.writes ++ write_of b bytes ∷ [] } in
      let (db, marked) = mark-db b written in
      elim (Bool-cases (check_block_metadata b (length bytes) (metadata uid))) [
        | inr bad ↦ (db, rw (handle_read, e, bad) marked)
        | inl good ↦ elim (Bool-cases (maybe_eq b.checksum (digest bytes))) [
          | inr bad ↦ (db, rw (handle_read, e, good, bad) marked)
          | inl good' ↦ (s.db, rw (handle_read, e, good, good') refl)
        ]
      ]

module _ (digest : Bytes → Text) (metadata : BlockUid → Metadata) (objects : Objects) (v : Version)
    (source : Bytes) where
  -- The block stands for its part of the source.
  abbrev pub BlockIsSound : Block → Type 0
  BlockIsSound b = (b.idx < blocks_count v) × (content objects b ≡ some (block_data v source b.idx))

  abbrev pub ReadIsSound : Block → Type 0
  ReadIsSound b =
      (uid : BlockUid) × (b.uid ≡ some uid)
      × (get_object uid objects ≡ some (block_data v source b.idx))
      × (b.idx < blocks_count v)

  pub record IsSound (todo : List Block) (s : State) : Type 0 where
    pub sparse : All (WriteIsSound v source) s.sparse_writes
    pub queue : All ReadIsSound s.reads
    pub jobs : All (WriteIsSound v source) s.writes
    pub room : v.size ≤ length s.target
    pub going : s.failed ≡ false
    pub progress :
        (k : ℕ) → k < blocks_count v → (is_pending todo s k ≡ true) ⊎ Agrees v source k s.target

  module _ (pos : 0 < v.block_size) where
    -- A write settles its block, and no other.
    written_progress :
        (w : Write) (target : Bytes) (k : ℕ) (busy left : Bool)
        → WriteIsSound v source w
        → v.size ≤ length target
        → ((k == w.idx) ≡ false → busy ≡ true → left ≡ true)
        → (busy ≡ true) ⊎ Agrees v source k target
        → (left ≡ true) ⊎ Agrees v source k (write_at (w.idx * v.block_size) w.bytes target)
    written_progress w target k busy left sound room stays before = elim (Bool-cases (k == w.idx)) [
      | inl same ↦
          let is : k ≡ w.idx = (==_iff k w.idx).0 same in
          inr (rw is (written-Agrees v source w target pos sound room))
      | inr other ↦ elim before [
        | inr agrees ↦ inr (others-Agree v source w target pos sound room k other agrees)
        | inl is_busy ↦ inl (stays other is_busy)
      ]
    ]

    sparse_write-IsSound :
        (before after : List Write) (w : Write) (s : State)
        → s.sparse_writes ≡ before ++ w ∷ after
        → IsSound [] s
        → IsSound [] (
            handle_write digest metadata objects v w (record s { sparse_writes = before ++ after }))
    sparse_write-IsSound before after w s e h =
        let all : All (WriteIsSound v source) (before ++ w ∷ after) = rw e at (h.sparse) in
        let (sound, others) = All-without (WriteIsSound v source) before after w all in
        record {
          sparse = others;
          queue = h.queue;
          jobs = h.jobs;
          room = room-write_at v source w s.target pos sound h.room;
          going = h.going;
          progress = λ k in_range.
              written_progress w s.target k _ _ sound h.room
                (λ other busy.
                  let one_less = any-without (writes_to k) _ before after w e in
                  ground (arith, one_less))
                (h.progress k in_range);
        }

    write-IsSound :
        (before after : List Write) (w : Write) (s : State)
        → s.writes ≡ before ++ w ∷ after
        → IsSound [] s
        → IsSound []
            (handle_write digest metadata objects v w (record s { writes = before ++ after }))
    write-IsSound before after w s e h =
        let all : All (WriteIsSound v source) (before ++ w ∷ after) = rw e at (h.jobs) in
        let (sound, others) = All-without (WriteIsSound v source) before after w all in
        record {
          sparse = h.sparse;
          queue = h.queue;
          jobs = others;
          room = room-write_at v source w s.target pos sound h.room;
          going = h.going;
          progress = λ k in_range.
              written_progress w s.target k _ _ sound h.room
                (λ other busy.
                  let one_less = any-without (writes_to k) _ before after w e in
                  ground (arith, one_less))
                (h.progress k in_range);
        }

  object_of-some :
      (b : Block) (uid : BlockUid) (bytes : Bytes)
      → b.uid ≡ some uid
      → get_object uid objects ≡ some bytes
      → object_of digest metadata objects v b ≡ some (uid, bytes)
  object_of-some b uid bytes u found = rw (object_of, u, found) refl

  WriteIsSound-of_read :
      (b : Block) (bytes : Bytes)
      → length source ≡ v.size
      → b.idx < blocks_count v
      → bytes ≡ block_data v source b.idx
      → WriteIsSound v source (write_of b bytes)
  WriteIsSound-of_read b bytes size in_range e =
      let long = ap length e ∙ length-block_data v source b.idx size in
      record {
        in_range = in_range;
        short = omega (arith, block_length-le v b.idx);
        long = omega arith;
        same = λ j inside. ap (byte j) e ∙ byte-block_data v source b.idx j inside;
      }

  module _ (size : length source ≡ v.size) where
    -- A block that was read waits to be written.
    queued-IsSound :
        (before after : List Block) (b : Block) (s : State) (db : Database)
        → s.reads ≡ before ++ b ∷ after
        → b.idx < blocks_count v
        → All ReadIsSound (before ++ after)
        → IsSound [] s
        → IsSound [] (record s {
          reads = before ++ after;
          writes = s.writes ++ write_of b (block_data v source b.idx) ∷ [];
          db = db;
        })
    queued-IsSound before after b s db e in_range others h =
        let w = write_of b (block_data v source b.idx) in
        record {
          sparse = h.sparse;
          queue = others;
          jobs =
              All-append (WriteIsSound v source) s.writes (w ∷ []) h.jobs
                (WriteIsSound-of_read b (block_data v source b.idx) size in_range refl, tt);
          room = h.room;
          going = h.going;
          progress = λ k within. elim (h.progress k within) [
            | inr agrees ↦ inr agrees
            | inl busy ↦
                let one_less = any-without (is_block k) _ before after b e in
                let one_more = any-append (writes_to k) s.writes (w ∷ []) in
                inl (ground (arith, one_less, one_more))
          ];
        }

    read_one-IsSound :
        (before after : List Block) (b : Block) (s : State)
        → s.reads ≡ before ++ b ∷ after
        → ReadIsSound b
        → All ReadIsSound (before ++ after)
        → IsSound [] s
        → IsSound []
            (handle_read digest metadata objects v b (record s { reads = before ++ after }))
    read_one-IsSound before after b s e (uid, u, found, in_range) others h =
        let there = object_of-some b uid (block_data v source b.idx) u found in
        let (db, same) =
          handle_read-writes digest metadata objects v b (record s { reads = before ++ after }) uid
            (block_data v source b.idx) there in
        rw same (queued-IsSound before after b s db e in_range others h)

    read-IsSound :
        (before after : List Block) (b : Block) (s : State)
        → s.reads ≡ before ++ b ∷ after
        → IsSound [] s
        → IsSound []
            (handle_read digest metadata objects v b (record s { reads = before ++ after }))
    read-IsSound before after b s e h =
        let all : All ReadIsSound (before ++ b ∷ after) = rw e at (h.queue) in
        let (sound, others) = All-without ReadIsSound before after b all in
        read_one-IsSound before after b s e sound others h

    pub reached-IsSound :
        0 < v.block_size
        → {s t : State} → Reach digest metadata objects v s t
        → IsSound [] s
        → IsSound [] t
    reached-IsSound pos here h = h
    reached-IsSound pos (next r (sparse_write before after w s e)) h =
        sparse_write-IsSound pos before after w s e (reached-IsSound pos r h)
    reached-IsSound pos (next r (read before after b s _ e)) h =
        read-IsSound before after b s e (reached-IsSound pos r h)
    reached-IsSound pos (next r (write before after w s e)) h =
        write-IsSound pos before after w s e (reached-IsSound pos r h)
