-- ===== src/Hooks/Boot.antt =====
-- `fh_init` and `fh_exit` of multi_thread/Module/proc.c, `fiber_ioctl_init` and `fiber_ioctl_exit` of
-- multi_thread/Module/fiber_ioctl.c: what the module registers with the kernel, and gives back.
use linux_fibers.Prelude.{ℕ, Bool, true, false, ◌==◌, if◌then◌else◌}
use linux_fibers.Hooks.Install.{Ftrace, Tracer, install_hooks, remove_hooks}

-- What the kernel answers to each registration: 0, or the number behind the negative error.
pub record Answers : Type 0 where
  pub chrdev_error : ℕ
  pub cdev_error : ℕ
  pub class_error : ℕ
  pub device_error : ℕ
  pub kprobe_error : ℕ
  pub kretprobe_error : ℕ
  pub ftrace : Ftrace

-- What is registered.
pub record Host : Type 0 where
  pub chrdev : Bool
  pub cdev : Bool
  pub class : Bool
  pub device : Bool
  pub kprobe : Bool
  pub kretprobe : Bool
  pub tracer : Tracer

-- `ARRAY_SIZE(hooks)`
abbrev pub hook_count : ℕ
hook_count = 2

-- The result of `fh_init` and of `fiber_ioctl_init` is 0, or the number behind a negative error.
unfoldable pub fh_init : Answers → Host → Host × ℕ
fh_init a h =
    let (tracer, err) = install_hooks a.ftrace hook_count h.tracer in
    if err == 0
    then if a.kretprobe_error == 0
      then (record h { tracer = tracer; kretprobe = true }, 0)
      else (record h { tracer = tracer }, 1)
    else (record h { tracer = tracer }, err)

unfoldable pub fh_exit : Answers → Host → Host
fh_exit a h = record h { tracer = remove_hooks a.ftrace hook_count h.tracer; kretprobe = false }

-- The steps after `device_create`. The result of `register_kprobe` is not looked at.
unfoldable pub start_probes : Answers → Host → Host × ℕ
unfolding fh_init
start_probes a h =
    let probed : Host = record h { kprobe = a.kprobe_error == 0 } in
    let (h', err) = fh_init a probed in if err == 0 then (h', 0) else (h', 1)

unfoldable pub fiber_ioctl_init : Answers → Host → Host × ℕ
fiber_ioctl_init a h =
    if a.chrdev_error == 0
    then if a.cdev_error == 0
      then if a.class_error == 0
        then if a.device_error == 0
          then start_probes a (record h { chrdev = true; cdev = true; class = true; device = true })
          else (record h { class = false; cdev = false; chrdev = false }, a.device_error)
        else (record h { cdev = false; chrdev = false }, a.class_error)
      else (record h { chrdev = true }, a.cdev_error)
    else (h, a.chrdev_error)

unfoldable pub fiber_ioctl_exit : Answers → Host → Host
unfolding fh_exit
fiber_ioctl_exit a h =
    let gone : Host = record h {
      device = false;
      class = false;
      cdev = false;
      chrdev = false;
      kprobe = false;
    } in
    fh_exit a gone
