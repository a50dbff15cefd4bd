-- ===== src/Restore.antt =====
-- `Benji.restore` of src/benji/benji.py and the target of src/benji/io/file.py that it writes to.
-- Sparse blocks are written first, then blocks are read from the storage and written in any order. The
-- metadata of an object, which the storage keeps beside it, is a parameter.
pub mod Files
pub mod Writes
pub mod Result
pub mod Queue
pub mod Whole
pub mod Finish
pub mod Missing
pub mod Opening
use benji.Prelude.{
  ℕ, ◌==◌, ◌≡◌, ◌+◌, ◌-◌, ◌*◌, Bool, ◌&&◌, ◌||◌, not, true, false, Option, none, some, List, [],
  ◌∷◌, ◌++◌, map, Text, text_eq, maybe_eq, if◌then◌else◌, ltb, take, drop, length, find, is_some,
  ◌⊎◌, inl, inr,
}
use benji.Storage.Uid.{BlockUid, maybe_uid_eq}
use benji.Database.{Version, VersionStatus, invalid, Block, Database}
use benji.Backup.{Bytes, zeros, Objects, get_object}

-- `f.seek(offset)` and `f.write(data)`; a gap behind the end of the file is filled with zeros.
abbrev pub write_at : ℕ → Bytes → Bytes → Bytes
write_at offset bytes f =
    take offset f ++ (zeros (offset - length f) ++ (bytes ++ drop (offset + length bytes) f))

pub data OpenError : Type 0 where
  already_exists too_small negative_seek : OpenError

-- `open_w`, of a file that may be there.
unfoldable pub open_w : ℕ → Bool → Option Bytes → OpenError ⊎ Bytes
open_w size force (some f) =
    if not force then inl already_exists else if ltb (length f) size then inl too_small else inr f
open_w size force none =
    if size == 0 then inl negative_seek else inr (write_at (size - 1) (0 ∷ []) [])

-- A block with its data, that is given to `io.write`.
pub record Write : Type 0 where
  pub idx : ℕ
  pub bytes : Bytes

-- What the storage keeps beside the data of a block.
pub record Metadata : Type 0 where
  pub size : ℕ
  pub checksum : Text

-- `check_block_metadata`
abbrev pub check_block_metadata : Block → ℕ → Metadata → Bool
check_block_metadata b data_length m =
    m.size == b.size
    && (data_length == 0 || data_length == b.size)
    && maybe_eq b.checksum m.checksum

-- `Version.set_block_invalid`
abbrev pub affected : BlockUid → List Block → Version → Bool
affected uid blocks v = is_some (find (λ b. maybe_uid_eq b.uid uid && b.version_id == v.id) blocks)

unfoldable pub set_block_invalid : BlockUid → Database → Database
set_block_invalid uid db = record db {
  versions =
      map (λ v. if affected uid db.blocks v then record v { status = invalid } else v) db.versions;
  blocks = map (λ b. if maybe_uid_eq b.uid uid then record b { is_valid = false } else b) db.blocks;
}

-- The target, the writes of sparse blocks, the blocks to be read and those to be written that are not
-- completed, the tables, and whether the restore ended with an exception.
pub record State : Type 0 where
  pub target : Bytes
  pub sparse_writes : List Write
  pub reads : List Block
  pub writes : List Write
  pub db : Database
  pub failed : Bool

-- The first loop over the blocks of the version.
abbrev pub queue_block : Version → Bool → Block → State → State
queue_block v sparse b s = elim b.uid [
  | some uid ↦ record s { reads = s.reads ++ b ∷ [] }
  | none ↦ if sparse then s else record s {
    sparse_writes = s.sparse_writes ++ record { idx = b.idx; bytes = zeros v.block_size } ∷ [];
  }
]

unfoldable pub queue_blocks : Version → Bool → List Block → State → State
queue_blocks v sparse [] s = s
queue_blocks v sparse (b ∷ bs) s = queue_blocks v sparse bs (queue_block v sparse b s)

abbrev pub mark : Block → State → State
mark b s = elim b.uid [ none ↦ s | some uid ↦ record s { db = set_block_invalid uid s.db } ]

module _ (digest : Bytes → Text) (metadata : BlockUid → Metadata) (objects : Objects)
    (v : Version) where
  abbrev pub object_of : Block → Option (BlockUid × Bytes)
  object_of b = elim b.uid [
    | none ↦ none
    | some uid ↦ elim (get_object uid objects) [ none ↦ none | some bytes ↦ some (uid, bytes) ]
  ]

  -- A read that completes. An object that is not there is an `InvalidBlockException`, which is raised:
  -- it is neither a `KeyError` nor a `ValueError`. What is there is written, whatever the checks say.
  unfoldable pub handle_read : Block → State → State
  handle_read b s = elim (object_of b) [
    | none ↦ record s { reads = []; failed = true }
    | some (uid, bytes) ↦
        let written : State = record s {
          writes = s.writes ++ record { idx = b.idx; bytes = bytes } ∷ [];
        } in
        if not (check_block_metadata b (length bytes) (metadata uid))
        then mark b written
        else if not (maybe_eq b.checksum (digest bytes))
        then mark b written
        else written
  ]

  -- `io._write`
  abbrev pub handle_write : Write → State → State
  handle_write w s = record s { target = write_at (w.idx * v.block_size) w.bytes s.target }

  -- Any pending write and any read may complete next, but reads only when the sparse blocks are written.
  pub data Step : State → State → Type 0 where
    sparse_write :
        (before after : List Write) (w : Write) (s : State)
        → s.sparse_writes ≡ before ++ w ∷ after
        → Step s (handle_write w (record s { sparse_writes = before ++ after }))
    read :
        (before after : List Block) (b : Block) (s : State)
        → s.sparse_writes ≡ []
        → s.reads ≡ before ++ b ∷ after
        → Step s (handle_read b (record s { reads = before ++ after }))
    write :
        (before after : List Write) (w : Write) (s : State)
        → s.writes ≡ before ++ w ∷ after
        → Step s (handle_write w (record s { writes = before ++ after }))

  pub data Reach (start : State) : State → Type 0 where
    here : Reach start start
    next : {s t : State} → Reach start s → Step s t → Reach start t
