-- ===== src/Hooks/Tests.antt =====
-- Loads and unloads of the module of multi_thread/Module where the kernel answers with errors.
use linux_fibers.Prelude.{◌≡◌, ◌≢◌, refl, true, false, arith, ◌⊎◌, ◌==◌, if◌then◌else◌}
use linux_fibers.Hooks.Install.{
  Ftrace, Tracer, resolve_hook_address, set_filter, remove_filter, register, unregister,
  install_hook, remove_hook, unwind, install_from, install_hooks, remove_from, remove_hooks,
}
use linux_fibers.Hooks.Rollback.{Installed, Absent, all_or_nothing}
use linux_fibers.Hooks.Boot.{
  Answers, Host, fh_init, fh_exit, start_probes, fiber_ioctl_init, fiber_ioctl_exit,
}
use linux_fibers.Hooks.Loading.{IsLoaded, fiber_ioctl_init-IsLoaded}

program : Unit {0}
unfolding resolve_hook_address set_filter remove_filter register unregister install_hook remove_hook
    unwind install_from install_hooks remove_from remove_hooks fh_init fh_exit start_probes
    fiber_ioctl_init fiber_ioctl_exit
program = tt

abbrev granted : Ftrace
granted = record {
  symbol = λ i. 0x1000;
  set_filter_error = λ _. 0;
  register_error = λ _. 0;
  unregister_error = λ _. 0;
  remove_filter_error = λ _. 0;
}

-- The second hook cannot be registered.
abbrev refusing : Ftrace
refusing = record granted { register_error = λ i. if i == 1 then 16 else 0 }

abbrev no_hooks : Tracer
no_hooks = record {
  address = λ _. 0;
  original = λ _. 0;
  filtered = λ _. false;
  registered = λ _. false;
}

abbrev all_hooks : Tracer
all_hooks = record no_hooks { filtered = λ _. true; registered = λ _. true }

abbrev unloaded : Host
unloaded = record {
  chrdev = false;
  cdev = false;
  class = false;
  device = false;
  kprobe = false;
  kretprobe = false;
  tracer = no_hooks;
}

abbrev answers : Answers
answers = record {
  chrdev_error = 0;
  cdev_error = 0;
  class_error = 0;
  device_error = 0;
  kprobe_error = 0;
  kretprobe_error = 0;
  ftrace = granted;
}

all_or_nothing_example :
    (((install_hooks refusing 2 no_hooks).1 ≡ 0)
      × Installed (install_hooks refusing 2 no_hooks).0 0)
    ⊎ (((install_hooks refusing 2 no_hooks).1 ≢ 0) × Absent (install_hooks refusing 2 no_hooks).0 0)
all_or_nothing_example =
    all_or_nothing refusing 2 0 no_hooks (λ j. (refl, refl)) (λ i. (refl, refl)) (omega arith)

fiber_ioctl_init-IsLoaded_example : IsLoaded (fiber_ioctl_init answers unloaded).0
unfolding program
fiber_ioctl_init-IsLoaded_example =
    fiber_ioctl_init-IsLoaded answers unloaded (λ j. (refl, refl))
      (record {
        chrdev = refl;
        cdev = refl;
        class = refl;
        device = refl;
        kprobe = refl;
        kretprobe = refl;
        hooks = λ i. (refl, refl);
      })
      refl

abbrev after_init : Host
after_init = (fiber_ioctl_init answers unloaded).0

abbrev refused : Answers
refused = record answers { ftrace = refusing }
