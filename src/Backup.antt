-- ===== src/Backup.antt =====
-- `Benji.backup` of src/benji/benji.py, below its checks: blocks of the source are read in any order,
-- those with new data are written to the storage, which takes its time, and the rows of the new
-- version are set accordingly. Queues are lists, and a step relation lets any read and any write
-- complete next.
pub mod Content
pub mod Steps
pub mod Writes
pub mod Queue
pub mod Result
pub mod Finish
pub mod Hints
pub mod Hinted
pub mod Frame
use benji.Prelude.{
  ℕ, ◌==◌, ◌≡◌, ◌+◌, ◌*◌, Bool, ◌&&◌, ◌||◌, not, true, false, Option, none, some, List, [], ◌∷◌,
  ◌++◌, Text, text_eq, is_some, if◌then◌else◌, contains, take, drop, replicate,
}
use benji.Storage.Uid.{BlockUid, uid_eq}
use benji.Database.{Version, Block, Database, data_block, set_block, get_block_by_checksum}

abbrev pub Bytes : Type 0
Bytes = List ℕ

-- `b'\0' * n`
abbrev pub zeros : ℕ → Bytes
zeros n = replicate n 0

-- The data objects of a storage; what is written last is read.
abbrev pub Objects : Type 0
Objects = List (BlockUid × Bytes)

abbrev pub get_object : BlockUid → Objects → Option Bytes
get_object uid [] = none
get_object uid ((u, bytes) ∷ objects) =
    let rest = get_object uid objects in if uid_eq uid u then some bytes else rest

-- `io._read`: the file is read at the block's offset. That a read behind its end raises an error is not
-- modelled; a source is as long as the version.
abbrev pub read_block : ℕ → Bytes → Block → Bytes
read_block block_size source b = take b.size (drop (b.idx * block_size) source)

-- A block that is given to `storage.write_block_async`.
pub record Job : Type 0 where
  pub idx : ℕ
  pub uid : BlockUid
  pub checksum : Text
  pub size : ℕ
  pub bytes : Bytes

-- The tables, the storage, the blocks that are still to be read, and those to be written.
pub record State : Type 0 where
  pub db : Database
  pub objects : Objects
  pub reads : List Block
  pub writes : List Job

abbrev pub set_in : Version → Block → State → State
set_in v new s = record s { db = record s.db { blocks = set_block v new s.db.blocks } }

-- `BlockUid(version.id, block.idx + 1)`
abbrev pub new_uid : Version → ℕ → BlockUid
new_uid v idx = record { left = v.id; right = idx + 1 }

-- One round of the loop over the blocks of the version. `read_blocks` goes before `sparse_blocks`.
unfoldable pub queue_block : Version → List ℕ → List ℕ → Block → State → State
queue_block v read_blocks sparse_blocks b s =
    if contains read_blocks b.idx || not b.is_valid
    then record s { reads = s.reads ++ b ∷ [] }
    else if contains sparse_blocks b.idx
    then if is_some b.uid then set_in v (data_block v b.idx none none b.size true) s else s
    else s

unfoldable pub queue_blocks : Version → List ℕ → List ℕ → List Block → State → State
queue_blocks v read_blocks sparse_blocks [] s = s
queue_blocks v read_blocks sparse_blocks (b ∷ bs) s =
    queue_blocks v read_blocks sparse_blocks bs (queue_block v read_blocks sparse_blocks b s)

module _ (digest : Bytes → Text) (v : Version) where
  -- A block with new data.
  abbrev pub submit : Block → Bytes → State → State
  submit b bytes s = record s {
    writes =
        s.writes
        ++ record {
          idx = b.idx;
          uid = new_uid v b.idx;
          checksum = digest bytes;
          size = b.size;
          bytes = bytes;
        }
          ∷ [];
  }

  abbrev pub is_sparse_data : Block → Bytes → Bool
  is_sparse_data b bytes =
      text_eq (digest bytes) (digest (zeros v.block_size)) && b.size == v.block_size

  -- A block that was read: it is sparse, or its data is known, or it is new.
  unfoldable pub handle_read : Block → Bytes → State → State
  handle_read b bytes s =
      if is_sparse_data b bytes
      then set_in v (data_block v b.idx none none b.size true) s
      else elim (get_block_by_checksum v (digest bytes) s.db) [
        | none ↦ submit b bytes s
        | some known ↦
            if known.size == b.size
            then set_in v (data_block v b.idx known.uid known.checksum known.size true) s
            else submit b bytes s
      ]

  -- The storage has written a block, and `handle_write_completed` records it.
  unfoldable pub handle_write : Job → State → State
  handle_write j s =
      set_in v (data_block v j.idx (some j.uid) (some j.checksum) j.size true)
        (record s { objects = (j.uid, j.bytes) ∷ s.objects })

  -- Any block that is still to be read may come next, and any one that is to be written.
  pub data Step (source : Bytes) : State → State → Type 0 where
    read :
        (before after : List Block) (b : Block) (s : State)
        → s.reads ≡ before ++ b ∷ after
        → Step source s (
            handle_read b (read_block v.block_size source b) (record s { reads = before ++ after }))
    write :
        (before after : List Job) (j : Job) (s : State)
        → s.writes ≡ before ++ j ∷ after
        → Step source s (handle_write j (record s { writes = before ++ after }))

  pub data Reach (source : Bytes) (start : State) : State → Type 0 where
    here : Reach source start start
    next : {s t : State} → Reach source start s → Step source s t → Reach source start t
