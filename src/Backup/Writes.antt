-- ===== src/Backup/Writes.antt =====
-- A write that completes keeps the state of a backup sound.
use benji.Prelude.{
  ℕ, ◌==◌, ◌≡◌, ◌+◌, ◌<◌, refl, ap, true, false, some, List, ◌∷◌, ◌++◌, arith, Text, if◌then◌else◌,
  All, All-map, inl, inr, length,
}
use benji.Storage.Uid.{uid_eq_iff}
use benji.Database.{Version, Block, data_block}
use benji.Backup.{Bytes, get_object, Job, State, set_in, new_uid, handle_write}
use benji.Backup.Content.{
  load, IsFree, JobIsSound, block_of, relist, IsSound, IsSoundBut, IsLess, RowIsSound-less,
  Holds-less, put_object, RowIsSound-put, Holds-put, IsSound-settle,
}
use benji.Backup.Steps.{load-writes, All-without}

new_uid-injective : (v : Version) (i k : ℕ) → new_uid v i ≡ new_uid v k → i ≡ k
new_uid-injective v i k e = let right : i + 1 ≡ k + 1 = ap (λ u. u.right) e in omega arith

module _ (digest : Bytes → Text) (v : Version) (T : ℕ → Bytes) (n : ℕ) (source : Bytes)
    (todo : List Block) (before after : List Job) (j : Job) (s : State)
    (queued : s.writes ≡ before ++ j ∷ after) (h : IsSound digest v T n source todo s) where
  job_sound : JobIsSound digest v T n j × All (JobIsSound digest v T n) (before ++ after)
  job_sound =
      let all : All (JobIsSound digest v T n) (before ++ j ∷ after) = rw queued at (h.jobs) in
      All-without (JobIsSound digest v T n) before after j all

  -- The job is taken off, and its object is in the storage.
  abbrev taken : State
  taken = relist digest v T n s.reads (before ++ after) s

  abbrev written : State
  written = put_object digest v T n (new_uid v j.idx) (T j.idx) taken

  load_split : (k : ℕ) → load todo s k ≡ load todo taken k + (if j.idx == k then 1 else 0)
  load_split k = load-writes todo before after j s k queued

  taken_less : IsLess digest v T n todo s todo taken
  taken_less k = omega (arith, load_split k)

  busy : 0 < load todo s j.idx
  busy = ground (arith, load_split j.idx)

  gone : load todo taken j.idx ≡ 0
  gone = ground (arith, load_split j.idx, h.once j.idx)

  written-IsSoundBut : IsSoundBut digest v T n j.idx source todo written
  written-IsSoundBut = record {
    rows =
        All-map s.db.blocks
          (λ r sound.
            RowIsSound-less digest v T n todo todo
              (put_object digest v T n (new_uid v j.idx) (T j.idx) s) s.reads (before ++ after) r
              taken_less (RowIsSound-put digest v T n todo s j.idx (T j.idx) r busy sound))
          h.rows;
    jobs = job_sound.1;
    queue = h.queue;
    once = λ k. omega (arith, h.once k, taken_less k);
    progress = λ k in_range other. elim (h.progress k in_range) [
      | inl busy ↦
          let other' : (j.idx == k) ≡ false = ground arith in
          let same : load todo s k ≡ load todo taken k + (if j.idx == k then 1 else 0) =
            load_split k in
          inl (ground (arith, same))
      | inr held ↦ inr (
          Holds-less digest v T n todo todo (put_object digest v T n (new_uid v j.idx) (T j.idx) s)
            s.reads (before ++ after) (block_of digest v T n s k) (T k) taken_less
            (Holds-put digest v T n todo s j.idx (T j.idx) (block_of digest v T n s k) (T k) busy
              held))
    ];
  }

  abbrev row : Block
  row =
      data_block v j.idx (some (new_uid v j.idx)) (some (digest (T j.idx))) (length (T j.idx)) true

  handle_write-row :
      handle_write digest v j (record s { writes = before ++ after }) ≡ set_in v row written
  unfolding handle_write
  handle_write-row =
      let (bytes, uid, checksum, size) = job_sound.0 in rw (checksum, size, uid, bytes) refl

  row-IsFree : IsFree digest v T n todo written (new_uid v j.idx)
  row-IsFree i e = let same : j.idx ≡ i = new_uid-injective v j.idx i e in rw (← same) gone

  stored : get_object (new_uid v j.idx) written.objects ≡ some (T j.idx)
  stored = rw ((uid_eq_iff (new_uid v j.idx) (new_uid v j.idx)).1 refl) refl

  pub handle_write-IsSound :
      IsSound digest v T n source todo
        (handle_write digest v j (record s { writes = before ++ after }))
  handle_write-IsSound = rw handle_write-row (
      IsSound-settle digest v T n source todo written row refl written-IsSoundBut
        (λ _. inr (new_uid v j.idx, T j.idx, refl, stored, refl, refl, row-IsFree))
        (inr (new_uid v j.idx, refl, stored, row-IsFree)))
