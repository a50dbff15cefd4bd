-- ===== src/Backup/Content.antt =====
-- What the rows of a version stand for while a backup runs.
use benji.Prelude.{
  ℕ, ◌==◌, ◌≡◌, ◌+◌, ◌≤◌, ◌<◌, refl, ◌∙◌, Bool, ◌&&◌, not, true, false, none, some, List, ◌∷◌,
  arith, Text, is_some, if◌then◌else◌, count, All, Bool-cases, inl, inr, ◌⊎◌, length, ==_iff,
}
use benji.Storage.Uid.{BlockUid, uid_eq, uid_eq_iff}
use benji.Database.{Version, Block, sparse_block, get_block_by_idx, is_usable}
use benji.Database.Blocks.{All-set_block, get_block_by_idx-set_block}
use benji.Backup.{Bytes, zeros, get_object, read_block, Job, State, set_in, new_uid}

abbrev pub block_is : ℕ → Block → Bool
block_is k b = b.idx == k

abbrev pub job_is : ℕ → Job → Bool
job_is k j = j.idx == k

-- How often a block is still to be looked at, to be read and to be written.
abbrev pub load : List Block → State → ℕ → ℕ
load todo s k = count (block_is k) todo + count (block_is k) s.reads + count (job_is k) s.writes

module _ (digest : Bytes → Text) (v : Version) (T : ℕ → Bytes) (n : ℕ) where
  -- A uid that no block still to be written will get.
  abbrev pub IsFree : List Block → State → BlockUid → Type 0
  IsFree todo s uid = (i : ℕ) → uid ≡ new_uid v i → load todo s i ≡ 0

  -- A usable row is sparse, or its data is in the storage, as its checksum and its size say.
  abbrev pub IsStored : List Block → State → Block → Type 0
  IsStored todo s b =
      (uid : BlockUid) × (bytes : Bytes) × (b.uid ≡ some uid)
      × (get_object uid s.objects ≡ some bytes)
      × (b.checksum ≡ some (digest bytes))
      × (b.size ≡ length bytes)
      × IsFree todo s uid

  abbrev pub RowIsSound : List Block → State → Block → Type 0
  RowIsSound todo s b =
      is_usable s.db.versions v.storage_id b ≡ true
      → ((b.uid ≡ none) × (b.checksum ≡ none)) ⊎ IsStored todo s b

  -- The block stands for the bytes.
  abbrev pub Holds : List Block → State → Block → Bytes → Type 0
  Holds todo s b bytes =
      ((b.uid ≡ none) × (zeros b.size ≡ bytes))
      ⊎ ((uid : BlockUid) × (b.uid ≡ some uid)
          × (get_object uid s.objects ≡ some bytes)
          × IsFree todo s uid)

  abbrev pub JobIsSound : Job → Type 0
  JobIsSound j =
      (j.bytes ≡ T j.idx)
      × (j.uid ≡ new_uid v j.idx)
      × (j.checksum ≡ digest j.bytes)
      × (j.size ≡ length j.bytes)

  abbrev pub ReadIsSound : Bytes → Block → Type 0
  ReadIsSound source b = (read_block v.block_size source b ≡ T b.idx) × (b.size ≡ length (T b.idx))

  abbrev pub block_of : State → ℕ → Block
  block_of s k = get_block_by_idx v k s.db.blocks

  -- What may be read and written next is replaced.
  abbrev pub relist : List Block → List Job → State → State
  relist reads writes s = record s { reads = reads; writes = writes }

  -- Every block of the version is looked at, read and written at most once, and when all of that is
  -- behind it, it stands for its part of the source.
  pub record IsSound (source : Bytes) (todo : List Block) (s : State) : Type 0 where
    pub rows : All (RowIsSound todo s) s.db.blocks
    pub jobs : All JobIsSound s.writes
    pub queue : All (ReadIsSound source) s.reads
    pub once : (k : ℕ) → load todo s k ≤ 1
    pub progress : (k : ℕ) → k < n → (0 < load todo s k) ⊎ Holds todo s (block_of s k) (T k)

  -- The same, but that the rows say nothing yet of one block, which is to be set.
  pub record IsSoundBut (i : ℕ) (source : Bytes) (todo : List Block) (s : State) : Type 0 where
    pub rows : All (RowIsSound todo s) s.db.blocks
    pub jobs : All JobIsSound s.writes
    pub queue : All (ReadIsSound source) s.reads
    pub once : (k : ℕ) → load todo s k ≤ 1
    pub progress :
        (k : ℕ) → k < n → (k == i) ≡ false → (0 < load todo s k) ⊎ Holds todo s (block_of s k) (T k)

  -- Less is to be done.
  abbrev pub IsLess : List Block → State → List Block → State → Type 0
  IsLess todo s todo' s' = (k : ℕ) → load todo' s' k ≤ load todo s k

  pub RowIsSound-less :
      (todo todo' : List Block) (s : State) (rs : List Block) (ws : List Job) (b : Block)
      → IsLess todo s todo' (relist rs ws s)
      → RowIsSound todo s b
      → RowIsSound todo' (relist rs ws s) b
  RowIsSound-less todo todo' s rs ws b less h usable = elim (h usable) [
    | inl sparse ↦ inl sparse
    | inr (uid, bytes, u, o, c, z, free) ↦ inr (
      uid,
      bytes,
      u,
      o,
      c,
      z,
      λ i e. let zero_load = free i e in omega (arith, zero_load, less i),
    )
  ]

  pub Holds-less :
      (todo todo' : List Block) (s : State) (rs : List Block) (ws : List Job) (b : Block)
      (bytes : Bytes)
      → IsLess todo s todo' (relist rs ws s)
      → Holds todo s b bytes
      → Holds todo' (relist rs ws s) b bytes
  Holds-less todo todo' s rs ws b bytes less (inl sparse) = inl sparse
  Holds-less todo todo' s rs ws b bytes less (inr (uid, u, o, free)) =
      inr (uid, u, o, λ i e. let zero_load = free i e in omega (arith, zero_load, less i))

  -- An object is written for a block that is still to be written.
  abbrev pub put_object : BlockUid → Bytes → State → State
  put_object uid bytes s = record s { objects = (uid, bytes) ∷ s.objects }

  get_object-put_free :
      (todo : List Block) (s : State) (i : ℕ) (uid : BlockUid) (bytes : Bytes)
      → 0 < load todo s i
      → IsFree todo s uid
      → get_object uid ((new_uid v i, bytes) ∷ s.objects) ≡ get_object uid s.objects
  get_object-put_free todo s i uid bytes busy free = elim (Bool-cases (uid_eq uid (new_uid v i))) [
    | inl e ↦ let none_left = free i ((uid_eq_iff uid (new_uid v i)).0 e) in absurd (omega arith)
    | inr e ↦ rw e refl
  ]

  pub RowIsSound-put :
      (todo : List Block) (s : State) (i : ℕ) (bytes : Bytes) (b : Block)
      → 0 < load todo s i
      → RowIsSound todo s b
      → RowIsSound todo (put_object (new_uid v i) bytes s) b
  RowIsSound-put todo s i bytes b busy h usable = elim (h usable) [
    | inl sparse ↦ inl sparse
    | inr (uid, found, u, o, c, z, free) ↦
        inr (uid, found, u, get_object-put_free todo s i uid bytes busy free ∙ o, c, z, free)
  ]

  pub Holds-put :
      (todo : List Block) (s : State) (i : ℕ) (bytes : Bytes) (b : Block) (held : Bytes)
      → 0 < load todo s i
      → Holds todo s b held
      → Holds todo (put_object (new_uid v i) bytes s) b held
  Holds-put todo s i bytes b held busy (inl sparse) = inl sparse
  Holds-put todo s i bytes b held busy (inr (uid, u, o, free)) =
      inr (uid, u, get_object-put_free todo s i uid bytes busy free ∙ o, free)

  -- Setting the block about which nothing is said makes the state sound.
  abbrev pub settled : Block → Block
  settled new =
      if not (is_some new.uid) && new.size == v.block_size then sparse_block v new.idx else new

  pub IsSound-settle :
      (source : Bytes) (todo : List Block) (s : State) (new : Block)
      → new.version_id ≡ v.id
      → IsSoundBut new.idx source todo s
      → RowIsSound todo s new
      → Holds todo s (settled new) (T new.idx)
      → IsSound source todo (set_in v new s)
  IsSound-settle source todo s new own h sound holds = record {
    rows = All-set_block (RowIsSound todo s) v new s.db.blocks sound h.rows;
    jobs = h.jobs;
    queue = h.queue;
    once = h.once;
    progress = λ k in_range.
        let after = get_block_by_idx-set_block v new k s.db.blocks own in
        elim (Bool-cases (k == new.idx)) [
          | inl e ↦
              let same : k ≡ new.idx = (==_iff k new.idx).0 e in
              let set : block_of (set_in v new s) k ≡ settled new = after ∙ rw (e, same) refl in
              inr (rw (set, same) holds)
          | inr e ↦
              let kept : block_of (set_in v new s) k ≡ block_of s k = after ∙ rw e refl in
              elim (h.progress k in_range e) [ inl busy ↦ inl busy | inr held ↦ inr (rw kept held) ]
        ];
  }
