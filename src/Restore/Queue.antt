-- ===== src/Restore/Queue.antt =====
-- The first loop of a restore over the blocks of the version leaves a sound state.
use benji.Prelude.{
  any-append, ℕ, ◌==◌, ◌≡◌, ◌+◌, ◌*◌, ◌<◌, refl, sym, ap, ◌∙◌, Bool, true, false, none, some, List,
  [], ◌∷◌, ◌++◌, arith, Text, length, All, All-append, Bool-cases, Option-cases, inl, inr, ==_iff,
}
use benji.Storage.Uid.{BlockUid}
use benji.Database.{block_length, Version, Block}
use benji.Backup.{Bytes, zeros, Objects, get_object}
use benji.Backup.Result.{content}
use benji.Backup.Hinted.{block_data, length-block_data}
use benji.Restore.{Write, Metadata, State, queue_block, queue_blocks}
use benji.Restore.Files.{byte}
use benji.Restore.Writes.{
  Agrees, WriteIsSound, block_length-le, block_starts, byte-block_data, byte-zeros, length-zeros,
}
use benji.Restore.Result.{writes_to, is_block, BlockIsSound, ReadIsSound, IsSound}

-- The target is zero, as far as the version goes.
abbrev pub IsBlank : Version → State → Type 0
IsBlank v s = (i : ℕ) → i < v.size → byte i s.target ≡ some 0

content-none :
    (objects : Objects) (b : Block) → b.uid ≡ none → content objects b ≡ some (zeros b.size)
content-none objects b u = rw (content, u) refl

content-some :
    (objects : Objects) (b : Block) (uid : BlockUid)
    → b.uid ≡ some uid
    → content objects b ≡ get_object uid objects
content-some objects b uid u = rw (content, u) refl

module _ (digest : Bytes → Text) (metadata : BlockUid → Metadata) (objects : Objects) (v : Version)
    (source : Bytes) (pos : 0 < v.block_size) (size : length source ≡ v.size) (sparse : Bool) where
  abbrev sparse_write_of : Block → Write
  sparse_write_of b = record { idx = b.idx; bytes = zeros v.block_size }

  queue_block-some :
      (b : Block) (s : State) (uid : BlockUid)
      → b.uid ≡ some uid
      → queue_block v sparse b s ≡ record s { reads = s.reads ++ b ∷ [] }
  queue_block-some b s uid u = simp (queue_block, u) refl

  queue_block-skipped :
      (b : Block) (s : State) → b.uid ≡ none → sparse ≡ true → queue_block v sparse b s ≡ s
  queue_block-skipped b s u e = rw (queue_block, u, e) refl

  queue_block-none :
      (b : Block) (s : State)
      → b.uid ≡ none
      → sparse ≡ false
      → queue_block v sparse b s
        ≡ record s { sparse_writes = s.sparse_writes ++ sparse_write_of b ∷ [] }
  queue_block-none b s u e = rw (queue_block, u, e) refl

  -- Where a sparse block is, there are zeros in the source.
  sparse_data :
      (b : Block)
      → b.uid ≡ none
      → content objects b ≡ some (block_data v source b.idx)
      → (j : ℕ) → j < block_length v b.idx
      → byte (b.idx * v.block_size + j) source ≡ some 0
  sparse_data b u is j inside =
      let zero_data : some (zeros b.size) ≡ some (block_data v source b.idx) =
        sym (content-none objects b u) ∙ is in
      let same : zeros b.size ≡ block_data v source b.idx = cc in
      let enough : b.size ≡ block_length v b.idx =
        sym (length-zeros b.size) ∙ ap length same ∙ length-block_data v source b.idx size in
      sym (byte-block_data v source b.idx j inside)
      ∙ ap (byte j) (sym same)
      ∙ byte-zeros b.size j (omega arith)

  WriteIsSound-of_sparse :
      (b : Block)
      → b.uid ≡ none
      → BlockIsSound digest metadata objects v source b
      → WriteIsSound v source (sparse_write_of b)
  WriteIsSound-of_sparse b u (in_range, is) =
      let short = block_length-le v b.idx in
      record {
        in_range = in_range;
        short = omega (arith, length-zeros v.block_size);
        long = omega (arith, length-zeros v.block_size);
        same =
            λ j inside. byte-zeros v.block_size j (omega arith) ∙ sym (sparse_data b u is j inside);
      }

  blank-Agrees :
      (b : Block) (s : State)
      → b.uid ≡ none
      → BlockIsSound digest metadata objects v source b
      → IsBlank v s
      → Agrees v source b.idx s.target
  blank-Agrees b s u (in_range, is) blank j inside =
      let starts = block_starts v b.idx pos in_range in
      let within : b.idx * v.block_size + j < v.size = ground arith in
      blank (b.idx * v.block_size + j) within ∙ sym (sparse_data b u is j inside)

  abbrev Sound : List Block → State → Type 0
  Sound = IsSound digest metadata objects v source

  module _ (b : Block) (todo : List Block) (s : State) (h : Sound (b ∷ todo) s)
      (sound : BlockIsSound digest metadata objects v source b) where
    read-IsSound :
        (uid : BlockUid) → b.uid ≡ some uid → Sound todo (record s { reads = s.reads ++ b ∷ [] })
    read-IsSound uid u = record {
      sparse = h.sparse;
      queue =
          All-append (ReadIsSound digest metadata objects v source) s.reads (b ∷ []) h.queue
            ((uid, u, sym (content-some objects b uid u) ∙ sound.1, sound.0), tt);
      jobs = h.jobs;
      room = h.room;
      going = h.going;
      progress = λ k in_range. elim (h.progress k in_range) [
        | inr agrees ↦ inr agrees
        | inl busy ↦
            let one_more = any-append (is_block k) s.reads (b ∷ []) in
            inl (ground (arith, one_more))
      ];
    }

    sparse_write-IsSound :
        b.uid ≡ none
        → Sound todo (record s { sparse_writes = s.sparse_writes ++ sparse_write_of b ∷ [] })
    sparse_write-IsSound u = record {
      sparse =
          All-append (WriteIsSound v source) s.sparse_writes (sparse_write_of b ∷ []) h.sparse
            (WriteIsSound-of_sparse b u sound, tt);
      queue = h.queue;
      jobs = h.jobs;
      room = h.room;
      going = h.going;
      progress = λ k in_range. elim (h.progress k in_range) [
        | inr agrees ↦ inr agrees
        | inl busy ↦
            let one_more = any-append (writes_to k) s.sparse_writes (sparse_write_of b ∷ []) in
            inl (ground (arith, one_more))
      ];
    }

    skipped-IsSound : b.uid ≡ none → IsBlank v s → Sound todo s
    skipped-IsSound u blank = record {
      sparse = h.sparse;
      queue = h.queue;
      jobs = h.jobs;
      room = h.room;
      going = h.going;
      progress = λ k in_range. elim (Bool-cases (b.idx == k)) [
        | inl e ↦
            let same : b.idx ≡ k = (==_iff b.idx k).0 e in
            inr (rw (← same) (blank-Agrees b s u sound blank))
        | inr e ↦ elim (h.progress k in_range) [
          | inr agrees ↦ inr agrees
          | inl busy ↦ inl (ground arith)
        ]
      ];
    }

  target-queue_block : (b : Block) (s : State) → (queue_block v sparse b s).target ≡ s.target
  target-queue_block b s = elim (Option-cases b.uid) [
    | inr (uid, u) ↦ ap (λ t. t.target) (queue_block-some b s uid u)
    | inl u ↦ elim (Bool-cases sparse) [
      | inl e ↦ ap (λ t. t.target) (queue_block-skipped b s u e)
      | inr e ↦ ap (λ t. t.target) (queue_block-none b s u e)
    ]
  ]

  queue_block-IsSound :
      (b : Block) (todo : List Block) (s : State)
      → (sparse ≡ true → IsBlank v s)
      → BlockIsSound digest metadata objects v source b
      → Sound (b ∷ todo) s
      → Sound todo (queue_block v sparse b s)
  queue_block-IsSound b todo s blank sound h = elim (Option-cases b.uid) [
    | inr (uid, u) ↦ rw (queue_block-some b s uid u) (read-IsSound b todo s h sound uid u)
    | inl u ↦ elim (Bool-cases sparse) [
      | inl e ↦ rw (queue_block-skipped b s u e) (skipped-IsSound b todo s h sound u (blank e))
      | inr e ↦ rw (queue_block-none b s u e) (sparse_write-IsSound b todo s h sound u)
    ]
  ]

  pub queue_blocks-IsSound :
      (todo : List Block) (s : State)
      → (sparse ≡ true → IsBlank v s)
      → All (BlockIsSound digest metadata objects v source) todo
      → Sound todo s
      → Sound [] (queue_blocks v sparse todo s)
  unfolding queue_blocks
  queue_blocks-IsSound [] s blank sounds h = h
  queue_blocks-IsSound (b ∷ todo) s blank (sound, sounds) h =
      queue_blocks-IsSound todo (queue_block v sparse b s)
        (λ e i low. ap (byte i) (target-queue_block b s) ∙ blank e i low) sounds
        (queue_block-IsSound b todo s blank sound h)
