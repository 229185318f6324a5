-- ===== src/KvStore.antt =====
-- p36_kvstore.c: checkpoints of the key-value cache in files that are named by the hash of the text
-- that they stand for.
pub mod Word
pub mod Reason
pub mod Header
pub mod Sizes
pub mod Store
pub mod Policy
pub mod Names
pub mod Sha1
pub mod Files
pub mod Evict
pub mod Find
pub mod Load
pub mod Buffer
pub mod Open
pub mod Hit
pub mod Trailer
pub mod Superseded
pub mod Write
mod Tests
