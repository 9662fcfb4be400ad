-- ===== src/Single.antt =====
-- The single-threaded version: the kernel module of single_thread/Module/fiber_ioctl.c and the user
-- library of single_thread/Library/function_calls.c.
pub mod Types
pub mod Fibers
pub mod Local
pub mod Module
pub mod Client
pub mod Switches
pub mod Values
pub mod Loading
mod Tests
