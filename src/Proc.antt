-- ===== src/Proc.antt =====
-- The /proc files of multi_thread/Module/proc.c: a directory `fibers` under each process, a file for
-- each fiber, and the accounting of execution time.
pub mod Entries
pub mod Listed
pub mod Names
pub mod Files
pub mod Accounting
mod Tests
