-- ===== src/Single/Loading.antt =====
-- `fiber_ioctl_init` and `fiber_ioctl_exit` of single_thread/Module/fiber_ioctl.c.
use linux_fibers.Prelude.{ℕ, ◌≡◌, ◌≢◌, Bool, true, false, ◌==◌, if◌then◌else◌, arith}

-- What the kernel answers to each registration: 0, or the number behind the negative error.
pub record Answers : Type 0 where
  pub chrdev_error : ℕ
  pub cdev_error : ℕ
  pub class_error : ℕ
  pub device_error : ℕ
  pub kprobe_error : ℕ

-- What is registered.
pub record Registered : Type 0 where
  pub chrdev : Bool
  pub cdev : Bool
  pub class : Bool
  pub device : Bool
  pub kprobe : Bool

abbrev pub nothing : Registered
nothing = record { chrdev = false; cdev = false; class = false; device = false; kprobe = false }

-- The result is 0, or the number behind the negative error. The result of `register_kprobe` is not
-- looked at.
unfoldable pub fiber_ioctl_init : Answers → Registered × ℕ
fiber_ioctl_init a =
    if a.chrdev_error == 0
    then (if a.cdev_error == 0
        then (if a.class_error == 0
            then (if a.device_error == 0
                then (
                  record {
                    chrdev = true;
                    cdev = true;
                    class = true;
                    device = true;
                    kprobe = a.kprobe_error == 0;
                  },
                  0,
                )
                else (nothing, a.device_error))
            else (nothing, a.class_error))
        else (record nothing { chrdev = true }, a.cdev_error))
    else (nothing, a.chrdev_error)

unfoldable pub fiber_ioctl_exit : Registered → Registered
fiber_ioctl_exit r = record {
  chrdev = false;
  cdev = false;
  class = false;
  device = false;
  kprobe = false;
}

-- A load that fails leaves nothing registered, save where `cdev_add` fails: then the numbers of the
-- device stay allocated.
pub fiber_ioctl_init-failed :
    (a : Answers)
    → (fiber_ioctl_init a).1 ≢ 0
    → (fiber_ioctl_init a).0 ≡ (
        if a.chrdev_error == 0
        then (if a.cdev_error == 0 then nothing else record nothing { chrdev = true })
        else nothing)
unfolding fiber_ioctl_init
fiber_ioctl_init-failed a failed = ground arith
