-- ===== src/Hooks/Loading.antt =====
-- Loading and unloading the module of multi_thread/Module: what is left behind.
use linux_fibers.Prelude.{
  ℕ, ◌≡◌, ◌≢◌, ◌<◌, true, false, if◌then◌else◌, ltb, refl, arith, inl, inr, ◌⊎◌,
}
use linux_fibers.Hooks.Install.{Ftrace, Tracer, install_hooks}
use linux_fibers.Hooks.Rollback.{Installed, Absent, Removable, all_or_nothing, remove_hooks_lem}
use linux_fibers.Hooks.Boot.{
  Answers, Host, hook_count, fh_init, start_probes, fiber_ioctl_init, fiber_ioctl_exit,
}

-- Nothing of the module is registered.
pub record IsClean (h : Host) : Type 0 where
  pub chrdev : h.chrdev ≡ false
  pub cdev : h.cdev ≡ false
  pub class : h.class ≡ false
  pub device : h.device ≡ false
  pub kprobe : h.kprobe ≡ false
  pub kretprobe : h.kretprobe ≡ false
  pub hooks : (i : ℕ) → Absent h.tracer i

-- Everything of the module is registered, the two hooks included.
pub record IsLoaded (h : Host) : Type 0 where
  pub chrdev : h.chrdev ≡ true
  pub cdev : h.cdev ≡ true
  pub class : h.class ≡ true
  pub device : h.device ≡ true
  pub kretprobe : h.kretprobe ≡ true
  pub hooks : (i : ℕ) → i < hook_count → Installed h.tracer i

installed :
    (a : Ftrace) (s : Tracer) (j : ℕ)
    → Removable a
    → ((i : ℕ) → Absent s i)
    → j < hook_count
    → (install_hooks a hook_count s).1 ≡ 0
    → Installed (install_hooks a hook_count s).0 j
installed a s j r clean lt e = elim (all_or_nothing a hook_count j s r clean lt) [
  | inl good ↦ good.1
  | inr bad ↦ absurd (bad.0 e)
]

-- If the kernel lets every hook be removed, a load of the module from a clean start that returns 0
-- has registered the device with all that it needs, the exit probe of finish_task_switch and both
-- hooks.
pub fiber_ioctl_init-IsLoaded :
    (a : Answers) (h : Host)
    → Removable a.ftrace
    → IsClean h
    → (fiber_ioctl_init a h).1 ≡ 0
    → IsLoaded (fiber_ioctl_init a h).0
unfolding fiber_ioctl_init start_probes fh_init
fiber_ioctl_init-IsLoaded a h r clean e = record {
  chrdev = ground arith;
  cdev = ground arith;
  class = ground arith;
  device = ground arith;
  kretprobe = ground arith;
  hooks = λ j lt.
      let good : (install_hooks a.ftrace hook_count h.tracer).1 ≡ 0 = ground arith in
      let (x, y) = installed a.ftrace h.tracer j r clean.hooks lt good in
      (ground (arith, x), ground (arith, y));
}

-- If the kernel lets every hook be removed, unloading the module takes out everything that it
-- registers and both hooks, whatever is registered before; the other hooks stay as they are.
pub fiber_ioctl_exit_lem :
    (a : Answers) (h : Host) (j : ℕ)
    → Removable a.ftrace
    → ((fiber_ioctl_exit a h).chrdev ≡ false)
      × ((fiber_ioctl_exit a h).cdev ≡ false)
      × ((fiber_ioctl_exit a h).class ≡ false)
      × ((fiber_ioctl_exit a h).device ≡ false)
      × ((fiber_ioctl_exit a h).kprobe ≡ false)
      × ((fiber_ioctl_exit a h).kretprobe ≡ false)
      × ((fiber_ioctl_exit a h).tracer.filtered j
          ≡ (if ltb j hook_count then false else h.tracer.filtered j))
      × ((fiber_ioctl_exit a h).tracer.registered j
          ≡ (if ltb j hook_count then false else h.tracer.registered j))
unfolding fiber_ioctl_exit
fiber_ioctl_exit_lem a h j r =
    let (f, g) = remove_hooks_lem a.ftrace hook_count j h.tracer r in
    (refl, refl, refl, refl, refl, refl, f, g)

-- A load that stops after the device is there, because a hook cannot be installed or the kretprobe
-- cannot be registered, returns an error and leaves the character device, its class and the device
-- behind, although the module is not loaded.
failed_load_leaks :
    (a : Answers) (h : Host)
    → a.chrdev_error ≡ 0
    → a.cdev_error ≡ 0
    → a.class_error ≡ 0
    → a.device_error ≡ 0
    → ((install_hooks a.ftrace hook_count h.tracer).1 ≢ 0) ⊎ (a.kretprobe_error ≢ 0)
    → ((fiber_ioctl_init a h).1 ≢ 0)
      × ((fiber_ioctl_init a h).0.device ≡ true)
      × ((fiber_ioctl_init a h).0.class ≡ true)
      × ((fiber_ioctl_init a h).0.cdev ≡ true)
      × ((fiber_ioctl_init a h).0.chrdev ≡ true)
unfolding fiber_ioctl_init start_probes
failed_load_leaks a h w x y z bad =
    (ground arith, ground arith, ground arith, ground arith, ground arith)
