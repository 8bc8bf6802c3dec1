-- ===== src/Meta.antt =====
-- src/meta: the metadata server.
pub mod InodeTable
pub mod Path
pub mod Namespace
pub mod BlockMap
pub mod NodeManager
pub mod Allocator
pub mod Service
mod Tests
