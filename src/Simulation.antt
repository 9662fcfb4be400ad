-- ===== src/Simulation.antt =====
-- The simulation of multi_thread/src/main.c: its event loop and its main program.
pub mod Queue
pub mod Loop
pub mod Pending
pub mod Progress
pub mod Safety
pub mod Launch
pub mod Starting
pub mod Startup
pub mod Countdown
pub mod Ending
pub mod Finishing
pub mod Joined
mod Tests
