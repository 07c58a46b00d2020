-- ===== src/Storage.antt =====
-- internal/storage: the write-ahead log, the pages and the files under them.
pub mod Wal
pub mod FileHeader
pub mod Keys
pub mod Page
pub mod Pager
pub mod FreeList
pub mod BufferPool
