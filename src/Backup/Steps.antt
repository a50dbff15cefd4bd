-- ===== src/Backup/Steps.antt =====
-- Each step of a backup keeps the state sound: a read, a write, and looking at a block.
use benji.Prelude.{
  ℕ, ◌==◌, ◌≡◌, ◌+◌, refl, sym, ap, ◌∙◌, Bool, ◌&&◌, true, false, none, some, List, [], ◌∷◌, ◌++◌,
  arith, Text, text_eq, text_eq_sound, maybe_eq, if◌then◌else◌, count, count-append, All, All-map,
  All-append, All-split, Bool-cases, Option-cases, inl, inr, length,
}
use benji.Database.{Version, Block, data_block, sparse_block, is_usable, get_block_by_checksum}
use benji.Database.Blocks.{All-find}
use benji.Backup.{
  Bytes, zeros, read_block, Job, State, set_in, new_uid, is_sparse_data, submit, handle_read,
}
use benji.Backup.Content.{
  block_is, job_is, load, RowIsSound, JobIsSound, ReadIsSound, block_of, relist, IsSound,
  IsSoundBut, IsLess, RowIsSound-less, Holds-less, settled, IsSound-settle,
}

pub load-reads :
    (todo before after : List Block) (b : Block) (s : State) (k : ℕ)
    → s.reads ≡ before ++ b ∷ after
    → load todo s k
      ≡ count (block_is k) todo
        + count (block_is k) (before ++ after)
        + count (job_is k) s.writes
        + (if b.idx == k then 1 else 0)
load-reads todo before after b s k e = omega (
  arith,
  ap (count (block_is k)) e,
  count-append (block_is k) before (b ∷ after),
  count-append (block_is k) before after,
)

pub load-writes :
    (todo : List Block) (before after : List Job) (j : Job) (s : State) (k : ℕ)
    → s.writes ≡ before ++ j ∷ after
    → load todo s k
      ≡ count (block_is k) todo
        + count (block_is k) s.reads
        + count (job_is k) (before ++ after)
        + (if j.idx == k then 1 else 0)
load-writes todo before after j s k e = omega (
  arith,
  ap (count (job_is k)) e,
  count-append (job_is k) before (j ∷ after),
  count-append (job_is k) before after,
)

pub All-without {ℓ} :
    {A : Type ℓ} (P : A → Type 0) (before after : List A) (x : A)
    → All P (before ++ x ∷ after)
    → P x × All P (before ++ after)
All-without P before after x h =
    let (front, (p, back)) = All-split P before (x ∷ after) h in
    (p, All-append P before after front back)

pub and_parts : (a b : Bool) → (a && b) ≡ true → (a ≡ true) × (b ≡ true)
and_parts a b h = ground arith

module _ (digest : Bytes → Text) (v : Version) (T : ℕ → Bytes) (n : ℕ)
    (injective : (a b : Bytes) → digest a ≡ digest b → a ≡ b) where
  handle_read-sparse :
      (b : Block) (bytes : Bytes) (s : State)
      → is_sparse_data digest v b bytes ≡ true
      → handle_read digest v b bytes s ≡ set_in v (data_block v b.idx none none b.size true) s
  unfolding handle_read
  handle_read-sparse b bytes s e = rw e refl

  handle_read-known :
      (b : Block) (bytes : Bytes) (s : State) (known : Block)
      → is_sparse_data digest v b bytes ≡ false
      → get_block_by_checksum v (digest bytes) s.db ≡ some known
      → (known.size == b.size) ≡ true
      → handle_read digest v b bytes s
        ≡ set_in v (data_block v b.idx known.uid known.checksum known.size true) s
  unfolding handle_read
  handle_read-known b bytes s known e f z = rw (handle_read, e, f, z) refl

  handle_read-other :
      (b : Block) (bytes : Bytes) (s : State) (known : Block)
      → is_sparse_data digest v b bytes ≡ false
      → get_block_by_checksum v (digest bytes) s.db ≡ some known
      → (known.size == b.size) ≡ false
      → handle_read digest v b bytes s ≡ submit digest v b bytes s
  unfolding handle_read
  handle_read-other b bytes s known e f z = rw (handle_read, e, f, z) refl

  handle_read-new :
      (b : Block) (bytes : Bytes) (s : State)
      → is_sparse_data digest v b bytes ≡ false
      → get_block_by_checksum v (digest bytes) s.db ≡ none
      → handle_read digest v b bytes s ≡ submit digest v b bytes s
  unfolding handle_read
  handle_read-new b bytes s e f = rw (handle_read, e, f) refl

  -- A block that is read is taken off its queue.
  module _ (source : Bytes) (todo before after : List Block) (b : Block) (s : State)
      (queued : s.reads ≡ before ++ b ∷ after) (h : IsSound digest v T n source todo s) where
    abbrev taken : State
    taken = relist digest v T n (before ++ after) s.writes s

    taken_read :
        ReadIsSound digest v T n source b × All (ReadIsSound digest v T n source) (before ++ after)
    taken_read =
        let all : All (ReadIsSound digest v T n source) (before ++ b ∷ after) =
          rw queued at (h.queue) in
        All-without (ReadIsSound digest v T n source) before after b all

    taken_less : IsLess digest v T n todo s todo taken
    taken_less k = omega (arith, load-reads todo before after b s k queued)

    taken-IsSoundBut : IsSoundBut digest v T n b.idx source todo taken
    taken-IsSoundBut = record {
      rows =
          All-map s.db.blocks
            (λ r. RowIsSound-less digest v T n todo todo s (before ++ after) s.writes r taken_less)
            h.rows;
      jobs = h.jobs;
      queue = taken_read.1;
      once = λ k. omega (arith, h.once k, taken_less k);
      progress = λ k in_range other. elim (h.progress k in_range) [
        | inl busy ↦
            let other' : (b.idx == k) ≡ false = ground arith in
            let same : load todo s k ≡ load todo taken k + (if b.idx == k then 1 else 0) =
              load-reads todo before after b s k queued in
            inl (ground (arith, same))
        | inr held ↦ inr (
            Holds-less digest v T n todo todo s (before ++ after) s.writes
              (block_of digest v T n s k) (T k) taken_less held)
      ];
    }

    -- The data is that of the block's part of the source.
    abbrev found : Bytes
    found = read_block v.block_size source b

    sparse-IsSound :
        is_sparse_data digest v b found ≡ true
        → IsSound digest v T n source todo
            (set_in v (data_block v b.idx none none b.size true) taken)
    sparse-IsSound e =
        let (same_digest, same_size) =
          and_parts (text_eq (digest found) (digest (zeros v.block_size))) (b.size == v.block_size)
            e in
        let all_zero : found ≡ zeros v.block_size =
          injective found (zeros v.block_size) (text_eq_sound _ _ same_digest) in
        let new = data_block v b.idx none none b.size true in
        let final : settled digest v T n new ≡ sparse_block v b.idx = rw same_size refl in
        IsSound-settle digest v T n source todo taken new refl taken-IsSoundBut
          (λ _. inl (refl, refl)) (rw final (inl (refl, sym all_zero ∙ taken_read.0.0)))

    known-IsSound :
        (known : Block)
        → get_block_by_checksum v (digest found) s.db ≡ some known
        → (known.size == b.size) ≡ true
        → IsSound digest v T n source todo
            (set_in v (data_block v b.idx known.uid known.checksum known.size true) taken)
    unfolding get_block_by_checksum
    known-IsSound known f z =
        let (row_sound, passes) =
          All-find (RowIsSound digest v T n todo taken)
            (λ r. maybe_eq r.checksum (digest found) && is_usable s.db.versions v.storage_id r)
            s.db.blocks known taken-IsSoundBut.rows f in
        let (same_checksum, usable) =
          and_parts (maybe_eq known.checksum (digest found))
            (is_usable s.db.versions v.storage_id known) passes in
        let new = data_block v b.idx known.uid known.checksum known.size true in
        elim (row_sound usable) [
          | inl (u, c) ↦
              let never : maybe_eq none (digest found) ≡ true = rw c at same_checksum in cc
          | inr (uid, bytes, u, o, c, size, free) ↦
              let equal : maybe_eq (some (digest bytes)) (digest found) ≡ true =
                rw c at same_checksum in
              let data_same : bytes ≡ T b.idx =
                injective bytes found (text_eq_sound _ _ equal) ∙ taken_read.0.0 in
              let final : settled digest v T n new ≡ new = rw u refl in
              IsSound-settle digest v T n source todo taken new refl taken-IsSoundBut
                (λ _. inr (uid, bytes, u, o, c, size, free))
                (rw final (inr (uid, u, o ∙ ap some data_same, free)))
        ]

    submit-IsSound : IsSound digest v T n source todo (submit digest v b found taken)
    submit-IsSound =
        let job : Job = record {
          idx = b.idx;
          uid = new_uid v b.idx;
          checksum = digest found;
          size = b.size;
          bytes = found;
        } in
        let same : (k : ℕ) → load todo (submit digest v b found taken) k ≡ load todo s k = λ k.
          omega (
            arith,
            load-reads todo before after b s k queued,
            count-append (job_is k) s.writes (job ∷ []),
          ) in
        let less : IsLess digest v T n todo s todo (submit digest v b found taken) =
          λ k. omega (arith, same k) in
        record {
          rows =
              All-map s.db.blocks
                (λ r.
                  RowIsSound-less digest v T n todo todo s (before ++ after) (s.writes ++ job ∷ [])
                    r less)
                h.rows;
          jobs =
              All-append (JobIsSound digest v T n) s.writes (job ∷ []) h.jobs
                ((taken_read.0.0, refl, refl, taken_read.0.1 ∙ ap length (sym taken_read.0.0)), tt);
          queue = taken_read.1;
          once = λ k. omega (arith, h.once k, same k);
          progress = λ k in_range. elim (h.progress k in_range) [
            | inl busy ↦ inl (omega (arith, same k))
            | inr held ↦ inr (
                Holds-less digest v T n todo todo s (before ++ after) (s.writes ++ job ∷ [])
                  (block_of digest v T n s k) (T k) less held)
          ];
        }

    pub handle_read-IsSound :
        IsSound digest v T n source todo
          (handle_read digest v b found (record s { reads = before ++ after }))
    handle_read-IsSound = elim (Bool-cases (is_sparse_data digest v b found)) [
      | inl e ↦ rw (handle_read-sparse b found taken e) (sparse-IsSound e)
      | inr e ↦ elim (Option-cases (get_block_by_checksum v (digest found) s.db)) [
        | inl f ↦ rw (handle_read-new b found taken e f) submit-IsSound
        | inr (known, f) ↦ elim (Bool-cases (known.size == b.size)) [
          | inl z ↦ rw (handle_read-known b found taken known e f z) (known-IsSound known f z)
          | inr z ↦ rw (handle_read-other b found taken known e f z) submit-IsSound
        ]
      ]
    ]
