-- ===== src/Hooks.antt =====
-- The ftrace hooks of multi_thread/Module/proc.c, and the loading of the module.
--
-- ftrace and kallsyms are the kernel's: `Ftrace` holds what they answer, an error number or 0 for
-- each call, and `Tracer` what they keep. A hook is its place in the array `hooks`.
pub mod Install
pub mod Rollback
pub mod Boot
pub mod Loading
mod Tests
