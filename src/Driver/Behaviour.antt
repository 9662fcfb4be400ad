-- ===== src/Driver/Behaviour.antt =====
-- What the requests of multi_thread/Module/fiber_ioctl.c do together.
pub mod Resume
pub mod Entry
pub mod Conversion
pub mod Refusal
pub mod Slots
pub mod Values
