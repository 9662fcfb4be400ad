-- ===== src/Numerical.antt =====
-- The random numbers of multi_thread/src/numerical.c.
pub mod Draws
pub mod Bounds
pub mod Drawn
mod Tests
