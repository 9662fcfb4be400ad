-- ===== src/Driver/Ioctl.antt =====
-- `my_ioctl` of multi_thread/Module/fiber_ioctl.c: one request of a task on /dev/fiber.
use linux_fibers.Prelude.{ℕ, pos}
use linux_fibers.Driver.State.{Kernel}
use linux_fibers.Driver.Task.{Task, Outcome, return}
use linux_fibers.Driver.Convert.{convert}
use linux_fibers.Driver.Create.{create}
use linux_fibers.Driver.Switch.{switch_to}
use linux_fibers.Driver.Fls.{fls_alloc, fls_free, fls_get_value, fls_set_value}

-- `cmd`, with `arg` where it is a number: the requests of multi_thread/Module/function_macro.h, and
-- any other number.
pub data Request : Type 0 where
  convert_to_fiber : Request
  create_fiber : Request
  switch_to_fiber : ℕ → Request
  fls_alloc_request : Request
  fls_free_request : ℕ → Request
  fls_get_request : Request
  fls_set_request : Request
  other_request : Request

unfoldable pub my_ioctl : Task → Request → Kernel → Outcome
my_ioctl c convert_to_fiber k = convert c k
my_ioctl c create_fiber k = create c k
my_ioctl c (switch_to_fiber fib_id) k = switch_to c fib_id k
my_ioctl c fls_alloc_request k = fls_alloc c k
my_ioctl c (fls_free_request index) k = fls_free c index k
my_ioctl c fls_get_request k = fls_get_value c k
my_ioctl c fls_set_request k = fls_set_value c k
my_ioctl c other_request k = return c (pos 0) k
