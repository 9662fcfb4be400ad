-- ===== src/Library/Stacks.antt =====
-- The stack that CreateFiber of multi_thread/src/function_calls.c hands to the kernel.
use linux_fibers.Prelude.{ℕ, some}
use linux_fibers.Driver.Task.{Task}
use linux_fibers.Library.Session.{Session}
use linux_fibers.Library.Calls.{stack_top}

abbrev with_create_arg : Task → ℕ → ℕ → ℕ → ℕ → Task
with_create_arg t stack size start_address parameter = record t {
  create_arg = some (record {
    stack_pointer = stack_top stack size;
    start_address = start_address;
    parameter = parameter;
  });
}
