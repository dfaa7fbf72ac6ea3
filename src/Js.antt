-- ===== src/Js.antt =====
-- The JavaScript of lib/ and src/pre.js that stands between the callers and src/glue.c.
pub mod Queue
pub mod Objects
pub mod Disk
pub mod Paths
pub mod Calls
pub mod Mounts
pub mod Options
pub mod Files
pub mod Hooks
