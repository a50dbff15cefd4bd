-- ===== src/Storage.antt =====
-- What the storages of Benji know of their objects: the paths of src/benji/storage/key.py, the blocks
-- that were seen, of src/benji/blockuidhistory.py, and the signatures of src/benji/storage/dicthmac.py.
pub mod Uid
pub mod Key
pub mod History
pub mod Hmac
