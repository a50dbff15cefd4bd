-- ===== src/Restore/Finish.antt =====
-- A restore ends, and it does not end well when an object is not there.
use benji.Prelude.{
  ℕ, zero, suc, ◌≡◌, ◌+◌, ◌*◌, ◌≤◌, ◌<◌, refl, ap, Bool, true, false, none, List, [], ◌∷◌, ◌++◌,
  arith, Text, Option-cases, inl, inr, ◌⊎◌, length, length-append, any, uncons, is_some, not,
}
use benji.Storage.Uid.{BlockUid}
use benji.Database.{Version, Block}
use benji.Backup.{Bytes, Objects}
use benji.Restore.{
  Write, Metadata, State, object_of, handle_read, handle_write, Step, sparse_write, read, write,
  Reach, here, next,
}
use benji.Restore.Result.{write_of, handle_read-writes, any-without}
use benji.Restore.Whole.{IsDone}

-- A read may lead to a write, so it counts for two.
abbrev pub work_left : State → ℕ
work_left s = 2 * length s.reads + length s.sparse_writes + length s.writes

module _ (digest : Bytes → Text) (metadata : BlockUid → Metadata) (objects : Objects)
    (v : Version) where
  abbrev pub is_missing : Block → Bool
  is_missing b = not (is_some (object_of digest metadata objects v b))

  handle_read-missing :
      (b : Block) (s : State)
      → object_of digest metadata objects v b ≡ none
      → handle_read digest metadata objects v b s ≡ record s { reads = []; failed = true }
  unfolding handle_read
  handle_read-missing b s e = simp (handle_read, e) refl

  work_left-handle_read :
      (b : Block) (s : State)
      → work_left (handle_read digest metadata objects v b s) ≤ work_left s + 1
  work_left-handle_read b s = elim (Option-cases (object_of digest metadata objects v b)) [
    | inl e ↦ rw (handle_read-missing b s e) (omega arith)
    | inr ((uid, bytes), e) ↦
        let (db, same) = handle_read-writes digest metadata objects v b s uid bytes e in
        rw same (omega (arith, length-append s.writes (write_of b bytes ∷ [])))
  ]

  work_left-handle_write :
      (w : Write) (s : State) → work_left (handle_write digest metadata objects v w s) ≡ work_left s
  work_left-handle_write w s = refl

  -- Each read and each write that completes leaves less to do.
  restore_step_lowers_work :
      {s t : State} → Step digest metadata objects v s t → work_left t < work_left s
  restore_step_lowers_work (sparse_write before after w s e) =
      omega (arith, ap length e, length-append before (w ∷ after), length-append before after)
  restore_step_lowers_work (read before after b s _ e) = omega (
    arith,
    work_left-handle_read b (record s { reads = before ++ after }),
    ap length e,
    length-append before (b ∷ after),
    length-append before after,
  )
  restore_step_lowers_work (write before after w s e) =
      omega (arith, ap length e, length-append before (w ∷ after), length-append before after)

  progress : (s : State) → IsDone s ⊎ ((t : State) × Step digest metadata objects v s t)
  progress s = elim (uncons s.sparse_writes) [
    | inr (w, after, e) ↦ inr (_, sparse_write [] after w s e)
    | inl none_sparse ↦ elim (uncons s.reads) [
      | inr (b, after, e) ↦ inr (_, read [] after b s none_sparse e)
      | inl none_read ↦ elim (uncons s.writes) [
        | inr (w, after, e) ↦ inr (_, write [] after w s e)
        | inl none_written ↦
            inl record { sparse_writes = none_sparse; reads = none_read; writes = none_written }
      ]
    ]
  ]

  Reach-append :
      {s t u : State}
      → Reach digest metadata objects v s t
      → Reach digest metadata objects v t u
      → Reach digest metadata objects v s u
  Reach-append r here = r
  Reach-append r (next q st) = next (Reach-append r q) st

  finishes_within :
      (fuel : ℕ) (s : State)
      → work_left s ≤ fuel
      → (t : State) × Reach digest metadata objects v s t × IsDone t
  finishes_within zero s h = elim (progress s) [
    | inl done ↦ (s, here, done)
    | inr (t, st) ↦ absurd (omega (arith, restore_step_lowers_work st))
  ]
  finishes_within (suc fuel) s h = elim (progress s) [
    | inl done ↦ (s, here, done)
    | inr (t, st) ↦
        let (u, r, done) = finishes_within fuel t (omega (arith, restore_step_lowers_work st)) in
        (u, Reach-append (next here st) r, done)
  ]

  -- From every state of a restore, its end is reached.
  pub restore_finishes : (s : State) → (t : State) × Reach digest metadata objects v s t × IsDone t
  restore_finishes s = finishes_within (work_left s) s (omega arith)

  abbrev pub IsDoomed : State → Type 0
  IsDoomed s = (s.failed ≡ true) ⊎ (any is_missing s.reads ≡ true)

  read-IsDoomed :
      (before after : List Block) (b : Block) (s : State)
      → s.reads ≡ before ++ b ∷ after
      → IsDoomed s
      → IsDoomed (handle_read digest metadata objects v b (record s { reads = before ++ after }))
  read-IsDoomed before after b s e h = elim (Option-cases (object_of digest metadata objects v b)) [
    | inl f ↦ rw (handle_read-missing b (record s { reads = before ++ after }) f) (inl refl)
    | inr ((uid, bytes), f) ↦
        let (db, same) =
          handle_read-writes digest metadata objects v b (record s { reads = before ++ after }) uid
            bytes f in
        rw same (elim h [
          | inl failed ↦ inl failed
          | inr missing ↦
              let one_less = any-without is_missing _ before after b e in
              let there : is_missing b ≡ false = rw f refl in inr (ground (arith, one_less, there))
        ])
  ]

  pub reached-IsDoomed :
      {s t : State} → Reach digest metadata objects v s t → IsDoomed s → IsDoomed t
  reached-IsDoomed here h = h
  reached-IsDoomed (next r (sparse_write before after w s e)) h = reached-IsDoomed r h
  reached-IsDoomed (next r (read before after b s _ e)) h =
      read-IsDoomed before after b s e (reached-IsDoomed r h)
  reached-IsDoomed (next r (write before after w s e)) h = reached-IsDoomed r h
