-- ===== src/Backup/Frame.antt =====
-- What a backup does not touch: a block that is not queued stays as it is.
use benji.Prelude.{
  ℕ, ◌==◌, ◌≡◌, ◌+◌, refl, ◌∙◌, ◌||◌, not, true, false, none, some, List, [], ◌∷◌, ◌++◌, arith,
  Text, contains, is_some, All, All-append, All-split, Bool-cases, Option-cases, inl, inr, ◌⊎◌,
  if_either,
}
use benji.Database.{Version, Block, data_block, get_block_by_idx, get_block_by_checksum}
use benji.Database.Blocks.{get_block_by_idx-set_block}
use benji.Backup.{
  Bytes, read_block, Job, State, set_in, is_sparse_data, queue_block, queue_blocks, handle_read,
  handle_write, Step, read, write, Reach, here, next,
}

-- The block with an index is as given, and nothing is queued for it.
pub record IsAway (v : Version) (k : ℕ) (c : Block) (s : State) : Type 0 where
  pub row : get_block_by_idx v k s.db.blocks ≡ c
  pub reads : All (λ b. (b.idx == k) ≡ false) s.reads
  pub writes : All (λ j. (j.idx == k) ≡ false) s.writes

module _ (v : Version) (k : ℕ) (c : Block) where
  set_in-IsAway :
      (new : Block) (s : State)
      → new.version_id ≡ v.id
      → (new.idx == k) ≡ false
      → IsAway v k c s
      → IsAway v k c (set_in v new s)
  set_in-IsAway new s key other a = record {
    row =
        let kept = get_block_by_idx-set_block v new k s.db.blocks key in
        let apart : (k == new.idx) ≡ false = ground arith in kept ∙ rw apart a.row;
    reads = a.reads;
    writes = a.writes;
  }

  -- A block with another index may be queued; the block itself, if it is valid and not listed, is not.
  queue_block-IsAway :
      (reads sparses : List ℕ) (b : Block) (s : State)
      → contains reads k ≡ false
      → contains sparses k ≡ false
      → ((b.idx == k) ≡ false) ⊎ ((b.idx ≡ k) × (b.is_valid ≡ true))
      → IsAway v k c s
      → IsAway v k c (queue_block v reads sparses b s)
  unfolding queue_block
  queue_block-IsAway reads sparses b s unread unsparse (inl other) a =
      if_either (IsAway v k c) (contains reads b.idx || not b.is_valid) _ _
        (λ _. record {
          row = a.row;
          reads = All-append (λ d. (d.idx == k) ≡ false) s.reads (b ∷ []) a.reads (other, tt);
          writes = a.writes;
        })
        (λ _.
          if_either (IsAway v k c) (contains sparses b.idx) _ _
            (λ _.
              if_either (IsAway v k c) (is_some b.uid) _ _
                (λ _. set_in-IsAway (data_block v b.idx none none b.size true) s refl other a)
                (λ _. a))
            (λ _. a))
  queue_block-IsAway reads sparses b s unread unsparse (inr (this, sound)) a =
      rw (this, unread, sound, unsparse) a

  pub queue_blocks-IsAway :
      (reads sparses : List ℕ) (bs : List Block) (s : State)
      → contains reads k ≡ false
      → contains sparses k ≡ false
      → All (λ b. ((b.idx == k) ≡ false) ⊎ ((b.idx ≡ k) × (b.is_valid ≡ true))) bs
      → IsAway v k c s
      → IsAway v k c (queue_blocks v reads sparses bs s)
  unfolding queue_blocks
  queue_blocks-IsAway reads sparses [] s unread unsparse h a = a
  queue_blocks-IsAway reads sparses (b ∷ bs) s unread unsparse (h, hs) a =
      queue_blocks-IsAway reads sparses bs (queue_block v reads sparses b s) unread unsparse hs
        (queue_block-IsAway reads sparses b s unread unsparse h a)

  module _ (digest : Bytes → Text) where
    submit-IsAway :
        (j : Job) (s : State)
        → (j.idx == k) ≡ false
        → IsAway v k c s
        → IsAway v k c (record s { writes = s.writes ++ j ∷ [] })
    submit-IsAway j s other a = record {
      row = a.row;
      reads = a.reads;
      writes = All-append (λ i. (i.idx == k) ≡ false) s.writes (j ∷ []) a.writes (other, tt);
    }

    handle_read-IsAway :
        (b : Block) (bytes : Bytes) (s : State)
        → (b.idx == k) ≡ false
        → IsAway v k c s
        → IsAway v k c (handle_read digest v b bytes s)
    unfolding handle_read
    handle_read-IsAway b bytes s other a =
        let job : Job = record {
          idx = b.idx;
          uid = record { left = v.id; right = b.idx + 1 };
          checksum = digest bytes;
          size = b.size;
          bytes = bytes;
        } in
        elim (Bool-cases (is_sparse_data digest v b bytes)) [
          | inl e ↦ rw e (set_in-IsAway (data_block v b.idx none none b.size true) s refl other a)
          | inr e ↦ elim (Option-cases (get_block_by_checksum v (digest bytes) s.db)) [
            | inl f ↦ rw (e, f) (submit-IsAway job s other a)
            | inr (known, f) ↦ elim (Bool-cases (known.size == b.size)) [
              | inl z ↦
                  rw (e, f, z)
                    (set_in-IsAway (data_block v b.idx known.uid known.checksum known.size true) s
                      refl other a)
              | inr z ↦ rw (e, f, z) (submit-IsAway job s other a)
            ]
          ]
        ]

    Step-IsAway :
        (source : Bytes) {s t : State} → Step digest v source s t → IsAway v k c s → IsAway v k c t
    unfolding handle_write
    Step-IsAway source (read before after b s e) a =
        let (past, (other, rest)) =
          All-split (λ d. (d.idx == k) ≡ false) before (b ∷ after) (rw e at a.reads) in
        handle_read-IsAway b (read_block v.block_size source b)
          (record s { reads = before ++ after }) other
          (record {
            row = a.row;
            reads = All-append (λ d. (d.idx == k) ≡ false) before after past rest;
            writes = a.writes;
          })
    Step-IsAway source (write before after j s e) a =
        let (past, (other, rest)) =
          All-split (λ i. (i.idx == k) ≡ false) before (j ∷ after) (rw e at a.writes) in
        set_in-IsAway (data_block v j.idx (some j.uid) (some j.checksum) j.size true)
          (record s { objects = (j.uid, j.bytes) ∷ s.objects; writes = before ++ after }) refl other
          (record {
            row = a.row;
            reads = a.reads;
            writes = All-append (λ i. (i.idx == k) ≡ false) before after past rest;
          })

    pub reached-IsAway :
        (source : Bytes) {s t : State} → Reach digest v source s t → IsAway v k c s → IsAway v k c t
    reached-IsAway source here a = a
    reached-IsAway source (next r st) a = Step-IsAway source st (reached-IsAway source r a)
