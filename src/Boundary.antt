-- ===== src/Boundary.antt =====
-- The front ends of memory and of files in src/
pub mod Geometry
pub mod Memory
pub mod Slot
pub mod Text
pub mod Files
pub mod Mappings
mod Tests
mod MemoryTests
mod FilesTests
