-- ===== src/Tests.antt =====
-- The library on a small filesystem in memory, and the theorems at concrete inputs.
pub mod Memory
pub mod MemoryLaws
pub mod MemoryNames
pub mod MemoryLookups
pub mod MemoryWidths
pub mod OneDisk
pub mod World
mod Examples
mod Counts
mod Namespace
mod Making
mod DiskLaws
mod Javascript
mod Writing
mod Hooked
mod Bounds
