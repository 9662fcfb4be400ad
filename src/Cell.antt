-- ===== src/Cell.antt =====
-- The cell of a mobile network that each fiber simulates: multi_thread/src/model.c, model.h and
-- channel.c.
pub mod State
pub mod Channels
pub mod Events
pub mod Counting
pub mod Allocation
pub mod Bookkeeping
pub mod Release
pub mod Calls
pub mod Endings
mod Tests
