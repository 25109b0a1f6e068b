-- ===== src/MemFs.antt =====
-- crates/dotnet-pal-memfs/src/lib.rs: the in-memory file system, with its files, locks, watches
-- and mappings.
pub mod Bytes
pub mod Maps
pub mod Exec
pub mod Content
pub mod State
pub mod Walk
pub mod Spelling
pub mod Reports
pub mod Tree
pub mod Handles
pub mod Names
pub mod Directories
pub mod Links
pub mod Watching
pub mod Mapping
pub mod Accounting
pub mod Calls
pub mod Locks
pub mod Queue
mod Tests
mod TreeTests
