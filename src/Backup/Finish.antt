-- ===== src/Backup/Finish.antt =====
-- A backup ends: each read and each write brings it nearer to its end, and it never blocks.
use benji.Prelude.{
  uncons, ℕ, zero, suc, ◌==◌, ◌≡◌, ◌+◌, ◌*◌, ◌≤◌, ◌<◌, refl, ap, [], ◌∷◌, ◌++◌, arith, Text,
  Bool-cases, Option-cases, inl, inr, ◌⊎◌, length, length-append,
}
use benji.Database.{Version, Block, get_block_by_checksum}
use benji.Backup.{
  Bytes, read_block, Job, State, is_sparse_data, handle_read, handle_write, Step, read, write,
  Reach, here, next,
}

-- A read may lead to a write, so it counts for two.
abbrev pub work_left : State → ℕ
work_left s = 2 * length s.reads + length s.writes

module _ (digest : Bytes → Text) (v : Version) where
  work_left-handle_read :
      (b : Block) (bytes : Bytes) (s : State)
      → work_left (handle_read digest v b bytes s) ≤ work_left s + 1
  unfolding handle_read
  work_left-handle_read b bytes s =
      let job : Job = record {
        idx = b.idx;
        uid = record { left = v.id; right = b.idx + 1 };
        checksum = digest bytes;
        size = b.size;
        bytes = bytes;
      } in
      let more = length-append s.writes (job ∷ []) in
      elim (Bool-cases (is_sparse_data digest v b bytes)) [
        | inl e ↦ rw e (omega arith)
        | inr e ↦ elim (Option-cases (get_block_by_checksum v (digest bytes) s.db)) [
          | inl f ↦ rw (e, f) (omega (arith, more))
          | inr (known, f) ↦ elim (Bool-cases (known.size == b.size)) [
            | inl z ↦ rw (e, f, z) (omega arith)
            | inr z ↦ rw (e, f, z) (omega (arith, more))
          ]
        ]
      ]

  work_left-handle_write :
      (j : Job) (s : State) → work_left (handle_write digest v j s) ≡ work_left s
  unfolding handle_write
  work_left-handle_write j s = refl

  module _ (source : Bytes) where
    -- Each read and each write that completes leaves less to do.
    pub step_lowers_work : {s t : State} → Step digest v source s t → work_left t < work_left s
    step_lowers_work (read before after b s e) = omega (
      arith,
      work_left-handle_read b (read_block v.block_size source b)
          (record s { reads = before ++ after }),
      ap length e,
      length-append before (b ∷ after),
      length-append before after,
    )
    step_lowers_work (write before after j s e) = omega (
      arith,
      work_left-handle_write j (record s { writes = before ++ after }),
      ap length e,
      length-append before (j ∷ after),
      length-append before after,
    )

    abbrev pub IsDone : State → Type 0
    IsDone s = (s.reads ≡ []) × (s.writes ≡ [])

    progress : (s : State) → IsDone s ⊎ ((t : State) × Step digest v source s t)
    progress s = elim (uncons s.reads) [
      | inr (b, after, e) ↦ inr (_, read [] after b s e)
      | inl none_read ↦ elim (uncons s.writes) [
        | inr (j, after, e) ↦ inr (_, write [] after j s e)
        | inl none_written ↦ inl (none_read, none_written)
      ]
    ]

    Reach-append :
        {s t u : State}
        → Reach digest v source s t
        → Reach digest v source t u
        → Reach digest v source s u
    Reach-append r here = r
    Reach-append r (next q st) = next (Reach-append r q) st

    finishes_within :
        (fuel : ℕ) (s : State)
        → work_left s ≤ fuel
        → (t : State) × Reach digest v source s t × IsDone t
    finishes_within zero s h = elim (progress s) [
      | inl done ↦ (s, here, done)
      | inr (t, st) ↦ absurd (omega (arith, step_lowers_work st))
    ]
    finishes_within (suc fuel) s h = elim (progress s) [
      | inl done ↦ (s, here, done)
      | inr (t, st) ↦
          let (u, r, done) = finishes_within fuel t (omega (arith, step_lowers_work st)) in
          (u, Reach-append (next here st) r, done)
    ]

    -- How many reads and writes complete in a run.
    unfoldable pub steps : {s t : State} → Reach digest v source s t → ℕ
    steps here = 0
    steps (next r st) = suc (steps r)

    pub backup_finishes : (s : State) → (t : State) × Reach digest v source s t × IsDone t
    backup_finishes s = finishes_within (work_left s) s (omega arith)

    steps-work_left :
        {s t : State} (run : Reach digest v source s t) → steps run + work_left t ≤ work_left s
    unfolding steps
    steps-work_left here = omega arith
    steps-work_left (next r st) = omega (arith, steps-work_left r, step_lowers_work st)

    -- Every run of a backup ends: no run from a state has more steps than twice the reads and once the
    -- writes that are outstanding there, less what is left in the state that it leads to; and no run
    -- stops before its end, since in a state that is not the end a read or a write can complete.
    pub backup_ends :
        (s t : State) (run : Reach digest v source s t)
        → (steps run + (2 * length t.reads + length t.writes)
            ≤ 2 * length s.reads + length s.writes)
          × (((t.reads ≡ []) × (t.writes ≡ [])) ⊎ ((u : State) × Step digest v source t u))
    backup_ends s t run = (steps-work_left run, progress t)
