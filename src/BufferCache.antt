-- ===== src/BufferCache.antt =====
-- kernel/kernel/bio.c and kernel/kernel/buf.c: the cache of disk blocks.
pub mod Buffers
pub mod Operations
pub mod Lists
pub mod Search
pub mod Invariant
pub mod Release
pub mod Get
pub mod Acquire
pub mod Trim
pub mod Limits
pub mod Coherence
pub mod Read
pub mod Reading
pub mod Changes
pub mod Leaving
pub mod Settings
pub mod Runs
mod Tests
