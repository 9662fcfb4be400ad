-- ===== src/Ult.antt =====
-- The fibers of user space, multi_thread/src/ult.c and ult.h, for several threads whose steps
-- interleave.
pub mod Steps
pub mod Owners
pub mod Ownership
pub mod Exclusion
pub mod Contexts
pub mod Creation
pub mod Storage
pub mod Stacks
mod Tests
