-- ===== src/Driver.antt =====
-- The kernel module of the multi-threaded version: multi_thread/Module/fiber_ioctl.c.
pub mod State
pub mod Task
pub mod Convert
pub mod Create
pub mod Switch
pub mod Fls
pub mod Exit
pub mod Ioctl
pub mod System
pub mod Invariant
pub mod Behaviour
mod Tests
