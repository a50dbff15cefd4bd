-- ===== src/Clone/Stored.antt =====
-- A new version refers only to data that is in the storage.
use benji.Prelude.{
  ℕ, ◌==◌, ◌≡◌, refl, Bool, ◌&&◌, true, false, Option, none, some, List, map, arith, Text, length,
  filter, range_from, All, All-append, All-range, Option-cases, inl, inr, ◌⊎◌, if_either,
}
use benji.Storage.Uid.{BlockUid}
use benji.Database.{
  Version, Block, Database, data_block, get_block_by_idx, blocks_count, block_length, create_blocks,
  is_stored, is_row, row, is_usable, in_storage,
}
use benji.Database.Blocks.{All-find, All-filter}
use benji.Backup.{Bytes, Objects, get_object}
use benji.Backup.Result.{IsStoredFor, is_own, found-is_own, AreForeign}
use benji.Clone.{old_block, taken_block, new_block, create_version}
use benji.Clone.Rows.{row_of, create_version-rows}

valid_if_usable : (a b : Bool) → (a && b) ≡ true → a ≡ true
valid_if_usable a b h = ground arith

module _ (digest : Bytes → Text) (v : Version) (db : Database) (objects : Objects) where
  -- What a usable block says of the storage.
  abbrev IsBacked : Block → Type 0
  IsBacked b =
      ((b.uid ≡ none) × (b.checksum ≡ none))
      ⊎ ((uid : BlockUid) × (bytes : Bytes) × (b.uid ≡ some uid)
          × (get_object uid objects ≡ some bytes)
          × (b.checksum ≡ some (digest bytes))
          × (b.size ≡ length bytes))

  -- A valid block of a version of the same storage is backed.
  found-IsBacked :
      (base : Version) (k : ℕ)
      → in_storage db.versions v.storage_id base.id ≡ true
      → All (IsStoredFor digest v db objects) db.blocks
      → (get_block_by_idx base k db.blocks).is_valid ≡ true
      → IsBacked (get_block_by_idx base k db.blocks)
  unfolding get_block_by_idx
  found-IsBacked base k stored rows valid = elim (Option-cases (row base.id k db.blocks)) [
    | inl e ↦ rw e (inl (refl, refl))
    | inr (r, e) ↦
        let (sound, is) =
          All-find (IsStoredFor digest v db objects) (is_row base.id k) db.blocks r rows e in
        let same : get_block_by_idx base k db.blocks ≡ r = rw e refl in
        let valid_row : r.is_valid ≡ true = rw same at valid in
        let of_base : r.version_id ≡ base.id = ground arith in
        let usable : is_usable db.versions v.storage_id r ≡ true = rw (valid_row, of_base) stored in
        rw e (sound usable)
  ]

  new-IsStoredFor :
      (k : ℕ) (o : Option Block)
      → ((b : Block) → o ≡ some b → b.is_valid ≡ true → IsBacked b)
      → IsStoredFor digest v db objects (new_block v k o)
  unfolding new_block
  new-IsStoredFor k none h =
      if_either (IsStoredFor digest v db objects) (v.block_size == block_length v k)
        (taken_block v k none) (data_block v k none none (block_length v k) false)
        (λ _ _. inl (refl, refl)) (λ _ _. inl (refl, refl))
  new-IsStoredFor k (some b) h =
      if_either (IsStoredFor digest v db objects) (b.size == block_length v k)
        (taken_block v k (some b)) (data_block v k none none (block_length v k) false)
        (λ _ usable. h b refl (valid_if_usable b.is_valid _ usable)) (λ _ _. inl (refl, refl))

  abbrev new_rows : Option Version → ℕ → List Block
  new_rows base work_package =
      map (row_of v base work_package db.blocks) (range_from 0 (blocks_count v))

  old-IsBacked :
      (base : Option Version) (k : ℕ)
      → ((w : Version) → base ≡ some w → in_storage db.versions v.storage_id w.id ≡ true)
      → All (IsStoredFor digest v db objects) db.blocks
      → (b : Block) → old_block base k db.blocks ≡ some b
      → b.is_valid ≡ true
      → IsBacked b
  old-IsBacked none k stored rows b e valid = cc
  old-IsBacked (some base) k stored rows b e valid =
      let same : get_block_by_idx base k db.blocks ≡ b = ground arith in
      let valid_block : (get_block_by_idx base k db.blocks).is_valid ≡ true = rw same valid in
      rw (← same) (found-IsBacked base k (stored base refl) rows valid_block)

  -- If the data of all usable rows is in the storage, with the sizes and checksums that the rows say,
  -- and the base version, if there is one, is in the same storage, so is the data of all usable rows
  -- with those of the new version.
  pub create_version-IsStoredFor :
      (base : Option Version) (work_package : ℕ)
      → ((w : Version) → base ≡ some w → in_storage db.versions v.storage_id w.id ≡ true)
      → All (IsStoredFor digest v db objects) db.blocks
      → All (IsStoredFor digest v db objects) (create_version v base work_package db.blocks)
  unfolding create_version create_blocks
  create_version-IsStoredFor base work_package stored rows =
      rw (create_version-rows v base work_package db.blocks db.blocks) (
        All-append (IsStoredFor digest v db objects) db.blocks
          (filter (is_stored v) (new_rows base work_package)) rows
          (All-filter (IsStoredFor digest v db objects) (is_stored v) (new_rows base work_package) (
            All-range (IsStoredFor digest v db objects) (row_of v base work_package db.blocks)
              (blocks_count v)
              (λ k _.
                new-IsStoredFor k (old_block base k db.blocks) (old-IsBacked base k stored rows)))))

module _ (v : Version) where
  new-is_own :
      (k : ℕ) (o : Option Block)
      → ((b : Block) → o ≡ some b → is_own v b ≡ false)
      → is_own v (new_block v k o) ≡ false
  unfolding new_block
  new-is_own k none h =
      if_either (λ b. is_own v b ≡ false) (v.block_size == block_length v k) (taken_block v k none)
        (data_block v k none none (block_length v k) false) (λ _. refl) (λ _. refl)
  new-is_own k (some b) h =
      if_either (λ c. is_own v c ≡ false) (b.size == block_length v k) (taken_block v k (some b))
        (data_block v k none none (block_length v k) false) (λ _. h b refl) (λ _. refl)

  old-is_own :
      (base : Option Version) (k : ℕ) (blocks : List Block)
      → AreForeign v blocks
      → (b : Block) → old_block base k blocks ≡ some b
      → is_own v b ≡ false
  old-is_own none k blocks foreign b e = cc
  old-is_own (some base) k blocks foreign b e =
      let same : get_block_by_idx base k blocks ≡ b = ground arith in
      rw (← same) (found-is_own v base k blocks foreign)

  -- A table without a uid of the version has none when the version is created.
  pub create_version-AreForeign :
      (base : Option Version) (work_package : ℕ) (blocks : List Block)
      → AreForeign v blocks
      → AreForeign v (create_version v base work_package blocks)
  unfolding create_version create_blocks
  create_version-AreForeign base work_package blocks foreign =
      let rows = map (row_of v base work_package blocks) (range_from 0 (blocks_count v)) in
      rw (create_version-rows v base work_package blocks blocks) (
        All-append (λ b. is_own v b ≡ false) blocks (filter (is_stored v) rows) foreign
          (All-filter (λ b. is_own v b ≡ false) (is_stored v) rows
            (All-range (λ b. is_own v b ≡ false) (row_of v base work_package blocks)
              (blocks_count v)
              (λ k _. new-is_own k (old_block base k blocks) (old-is_own base k blocks foreign)))))
