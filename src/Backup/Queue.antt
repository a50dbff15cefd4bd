-- ===== src/Backup/Queue.antt =====
-- The loop over the blocks of a version, before anything is read, leaves a sound state.
use benji.Prelude.{
  ℕ, ◌==◌, ◌≡◌, refl, sym, ap, ◌∙◌, Bool, ◌||◌, not, true, false, none, some, List, [], ◌∷◌, ◌++◌,
  arith, Text, is_some, contains, count, count-append, All, All-map, All-append, Bool-cases, inl,
  inr, ◌⊎◌, ==_iff,
}
use benji.Storage.Uid.{BlockUid}
use benji.Database.{Version, Block, data_block, sparse_block}
use benji.Database.Blocks.{get_block_by_idx-set_block}
use benji.Backup.{Bytes, zeros, Objects, get_object, State, set_in, queue_block, queue_blocks}
use benji.Backup.Content.{
  block_is, load, Holds, ReadIsSound, block_of, IsSound, IsSoundBut, IsLess, RowIsSound-less,
  Holds-less, settled, IsSound-settle,
}

module _ (v : Version) (read_blocks sparse_blocks : List ℕ) where
  abbrev pub is_read : Block → Bool
  is_read b = contains read_blocks b.idx || not b.is_valid

  queue_block-read :
      (b : Block) (s : State)
      → is_read b ≡ true
      → queue_block v read_blocks sparse_blocks b s ≡ record s { reads = s.reads ++ b ∷ [] }
  unfolding queue_block
  queue_block-read b s e = rw e refl

  queue_block-sparse :
      (b : Block) (s : State)
      → is_read b ≡ false
      → contains sparse_blocks b.idx ≡ true
      → is_some b.uid ≡ true
      → queue_block v read_blocks sparse_blocks b s
        ≡ set_in v (data_block v b.idx none none b.size true) s
  unfolding queue_block
  queue_block-sparse b s e f u = rw (queue_block, e, f, u) refl

  queue_block-sparse_already :
      (b : Block) (s : State)
      → is_read b ≡ false
      → contains sparse_blocks b.idx ≡ true
      → is_some b.uid ≡ false
      → queue_block v read_blocks sparse_blocks b s ≡ s
  unfolding queue_block
  queue_block-sparse_already b s e f u = rw (queue_block, e, f, u) refl

  queue_block-kept :
      (b : Block) (s : State)
      → is_read b ≡ false
      → contains sparse_blocks b.idx ≡ false
      → queue_block v read_blocks sparse_blocks b s ≡ s
  unfolding queue_block
  queue_block-kept b s e f = rw (queue_block, e, f) refl

  module _ (digest : Bytes → Text) (T : ℕ → Bytes) (n : ℕ) (source : Bytes) where
    -- A block that is kept stands for its bytes, by an object that the backup does not write.
    abbrev pub Keeps : Objects → Block → Bytes → Type 0
    Keeps objects b bytes =
        ((b.uid ≡ none) × (zeros b.size ≡ bytes))
        ⊎ ((uid : BlockUid) × (b.uid ≡ some uid)
            × (get_object uid objects ≡ some bytes)
            × ((uid.left == v.id) ≡ false))

    -- A block that is read can be read, one that is called sparse is zero in the source, and one that
    -- is kept stands for what is in the source.
    pub record IsPlanned (objects : Objects) (b : Block) : Type 0 where
      pub read : is_read b ≡ true → ReadIsSound digest v T n source b
      pub sparse : is_read b ≡ false → contains sparse_blocks b.idx ≡ true → zeros b.size ≡ T b.idx
      pub kept :
          is_read b ≡ false → contains sparse_blocks b.idx ≡ false → Keeps objects b (T b.idx)

    -- The blocks that are still to be looked at are in the table as they were.
    abbrev pub AreUntouched : List Block → State → Type 0
    AreUntouched todo s = All (λ b. block_of digest v T n s b.idx ≡ b) todo

    Holds-of_Keeps :
        (todo : List Block) (s : State) (b : Block) (bytes : Bytes)
        → Keeps s.objects b bytes
        → Holds digest v T n todo s b bytes
    Holds-of_Keeps todo s b bytes (inl sparse) = inl sparse
    Holds-of_Keeps todo s b bytes (inr (uid, u, o, other)) = inr (
      uid,
      u,
      o,
      λ i e.
          let left : uid.left ≡ v.id = ap (λ w. w.left) e in
          let same : (uid.left == v.id) ≡ true = (==_iff uid.left v.id).1 left in cc,
    )

    untouched_others :
        (todo : List Block) (s : State) (new : Block)
        → new.version_id ≡ v.id
        → count (block_is new.idx) todo ≡ 0
        → AreUntouched todo s
        → AreUntouched todo (set_in v new s)
    untouched_others [] s new own none_left h = tt
    untouched_others (b ∷ todo) s new own none_left (same, h) =
        let other : (b.idx == new.idx) ≡ false = ground arith in
        let fewer : count (block_is new.idx) todo ≡ 0 = omega arith in
        (
          get_block_by_idx-set_block v new b.idx s.db.blocks own ∙ rw other same,
          untouched_others todo s new own fewer h,
        )

    module _ (b : Block) (todo : List Block) (s : State)
        (h : IsSound digest v T n source (b ∷ todo) s) (plan : IsPlanned s.objects b)
        (untouched : AreUntouched (b ∷ todo) s) where
      less : IsLess digest v T n (b ∷ todo) s todo s
      less k = omega arith

      last_one : count (block_is b.idx) todo ≡ 0
      last_one = ground (arith, h.once b.idx)

      -- Once it is looked at, a block that stands for its bytes is behind the backup.
      kept-IsSound : Keeps s.objects b (T b.idx) → IsSound digest v T n source todo s
      kept-IsSound keeps = record {
        rows =
            All-map s.db.blocks
              (λ r. RowIsSound-less digest v T n (b ∷ todo) todo s s.reads s.writes r less) h.rows;
        jobs = h.jobs;
        queue = h.queue;
        once = λ k. omega (arith, h.once k, less k);
        progress = λ k in_range. elim (Bool-cases (b.idx == k)) [
          | inl e ↦
              let same : b.idx ≡ k = (==_iff b.idx k).0 e in
              let there : Holds digest v T n todo s (block_of digest v T n s b.idx) (T b.idx) =
                rw untouched.0 (Holds-of_Keeps todo s b (T b.idx) keeps) in
              inr (rw (← same) there)
          | inr e ↦ elim (h.progress k in_range) [
            | inl busy ↦ inl (ground arith)
            | inr held ↦ inr (
                Holds-less digest v T n (b ∷ todo) todo s s.reads s.writes
                  (block_of digest v T n s k) (T k) less held)
          ]
        ];
      }

      read-IsSound :
          ReadIsSound digest v T n source b
          → IsSound digest v T n source todo (record s { reads = s.reads ++ b ∷ [] })
      read-IsSound reads =
          let same : (k : ℕ)
              → load todo (record s { reads = s.reads ++ b ∷ [] }) k ≡ load (b ∷ todo) s k =
            λ k. omega (arith, count-append (block_is k) s.reads (b ∷ [])) in
          let fewer : IsLess digest v T n (b ∷ todo) s todo
              (record s { reads = s.reads ++ b ∷ [] }) =
            λ k. omega (arith, same k) in
          record {
            rows =
                All-map s.db.blocks
                  (λ r.
                    RowIsSound-less digest v T n (b ∷ todo) todo s (s.reads ++ b ∷ []) s.writes r
                      fewer)
                  h.rows;
            jobs = h.jobs;
            queue =
                All-append (ReadIsSound digest v T n source) s.reads (b ∷ []) h.queue (reads, tt);
            once = λ k. omega (arith, h.once k, same k);
            progress = λ k in_range. elim (h.progress k in_range) [
              | inl busy ↦ inl (omega (arith, same k))
              | inr held ↦ inr (
                  Holds-less digest v T n (b ∷ todo) todo s (s.reads ++ b ∷ []) s.writes
                    (block_of digest v T n s k) (T k) fewer held)
            ];
          }

      sparse-IsSound :
          zeros b.size ≡ T b.idx
          → IsSound digest v T n source todo (set_in v (data_block v b.idx none none b.size true) s)
      sparse-IsSound zero_data =
          let new = data_block v b.idx none none b.size true in
          let but : IsSoundBut digest v T n b.idx source todo s = record {
            rows =
                All-map s.db.blocks
                  (λ r. RowIsSound-less digest v T n (b ∷ todo) todo s s.reads s.writes r less)
                  h.rows;
            jobs = h.jobs;
            queue = h.queue;
            once = λ k. omega (arith, h.once k, less k);
            progress = λ k in_range other. elim (h.progress k in_range) [
              | inl busy ↦ let other' : (b.idx == k) ≡ false = ground arith in inl (ground arith)
              | inr held ↦ inr (
                  Holds-less digest v T n (b ∷ todo) todo s s.reads s.writes
                    (block_of digest v T n s k) (T k) less held)
            ];
          } in
          IsSound-settle digest v T n source todo s new refl but (λ _. inl (refl, refl))
            (elim (Bool-cases (b.size == v.block_size)) [
              | inl e ↦
                  let size : b.size ≡ v.block_size = (==_iff b.size v.block_size).0 e in
                  let final : settled digest v T n new ≡ sparse_block v b.idx = rw e refl in
                  rw final (inl (refl, ap zeros (sym size) ∙ zero_data))
              | inr e ↦
                  let final : settled digest v T n new ≡ new = rw e refl in
                  rw final (inl (refl, zero_data))
            ])

    -- What holds before each block is looked at.
    abbrev pub IsReady : List Block → State → Type 0
    IsReady todo s =
        IsSound digest v T n source todo s × AreUntouched todo s × All (IsPlanned s.objects) todo

    queue_block-IsReady :
        (b : Block) (todo : List Block) (s : State)
        → IsReady (b ∷ todo) s
        → IsReady todo (queue_block v read_blocks sparse_blocks b s)
    queue_block-IsReady b todo s (h, untouched, (plan, plans)) =
        let new = data_block v b.idx none none b.size true in
        elim (Bool-cases (is_read b)) [
          | inl e ↦
              rw (queue_block-read b s e)
                (read-IsSound b todo s h plan untouched (plan.read e), untouched.1, plans)
          | inr e ↦ elim (Bool-cases (contains sparse_blocks b.idx)) [
            | inr f ↦
                rw (queue_block-kept b s e f)
                  (kept-IsSound b todo s h plan untouched (plan.kept e f), untouched.1, plans)
            | inl f ↦ elim (Bool-cases (is_some b.uid)) [
              | inl u ↦ rw (queue_block-sparse b s e f u) (
                sparse-IsSound b todo s h plan untouched (plan.sparse e f),
                untouched_others todo s new refl (last_one b todo s h plan untouched) untouched.1,
                plans,
              )
              | inr u ↦
                  let absent : b.uid ≡ none = ground arith in
                  rw (queue_block-sparse_already b s e f u) (
                    kept-IsSound b todo s h plan untouched (inl (absent, plan.sparse e f)),
                    untouched.1,
                    plans,
                  )
            ]
          ]
        ]

    pub queue_blocks-IsSound :
        (todo : List Block) (s : State)
        → IsReady todo s
        → IsSound digest v T n source [] (queue_blocks v read_blocks sparse_blocks todo s)
    unfolding queue_blocks
    queue_blocks-IsSound [] s (h, _, _) = h
    queue_blocks-IsSound (b ∷ todo) s ready =
        queue_blocks-IsSound todo (queue_block v read_blocks sparse_blocks b s)
          (queue_block-IsReady b todo s ready)
