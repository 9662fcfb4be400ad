-- ===== src/Library.antt =====
-- The user library of the multi-threaded version, multi_thread/src/function_calls.c: the fiber calls
-- as requests on /dev/fiber.
pub mod Session
pub mod Calls
pub mod Storage
pub mod Stacks
mod Tests
