-- ===== src/Thread.antt =====
-- The threads of multi_thread/src/thread.c: how each gets its number, and the block that they share.
pub mod Steps
pub mod Numbers
pub mod Shared
mod Tests
