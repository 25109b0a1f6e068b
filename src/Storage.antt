-- ===== src/Storage.antt =====
-- crates/dotnet-pal-storage/src/lib.rs: the providers of linear storage.
mod Tests
mod LedgerTests
pub mod Arena
pub mod Ledger
