-- ===== src/Lib.antt =====
-- Fibers for Linux: a kernel module that gives the threads of a process fibers, the user library over
-- it, and the files and accounting that it keeps under /proc. The repository has the module twice,
-- for many threads (multi_thread) and in an earlier form (single_thread).
--
-- How the parts interact. A program calls the library (multi_thread/src/function_calls.c), which
-- opens /dev/fiber once and makes one `ioctl` for each call. The module answers in `my_ioctl`
-- (multi_thread/Module/fiber_ioctl.c): it looks up the process, thread and fiber of the caller in its
-- hash tables, and for a switch it exchanges the registers and the FPU state with which the task goes
-- on. `Pre_Handler` takes a thread out when it exits. multi_thread/Module/proc.c shows the same tables
-- under /proc/<pid>/fibers and measures, at each task switch, how long a fiber has run.
--
-- Prelude      shared: library names, Boolean tests, lists measured by native numbers, the integers
--              that a system call returns, and Prelude.Table: lists searched by a number, which
--              stand for the kernel's hash tables; Prelude.Results for chains of steps
--              that may fail or leave the calendar, and Prelude.Bags for lists up to order.
-- Driver       multi_thread/Module/fiber_ioctl.c, fiber_ioctl.h, function_macro.h. State holds the
--              records (fiber_arg_t is Fiber, thread_arg_t Thread, process_arg_t Process) and the
--              three searches; Task holds what one system call reads from the kernel around it, and
--              its outcome; Convert, Create, Switch and Fls are the seven requests of my_ioctl,
--              one function each (convert, create, switch_to, fls_alloc, fls_free, fls_get_value,
--              fls_set_value) with the parts of the handler as helpers; Exit is Pre_Handler;
--              Ioctl is my_ioctl itself; System is the step relation of requests and exits from the
--              state of a loaded module. Invariant states what the tables keep and proves it for each
--              operation; Behaviour says what the requests do.
-- Library      multi_thread/src/function_calls.c: Session is fd and done, Calls the seven functions.
-- Hooks        multi_thread/Module/proc.c, fh_install_hook to fh_remove_hooks (Install), fh_init and
--              fh_exit, and fiber_ioctl_init and fiber_ioctl_exit of fiber_ioctl.c (Boot).
-- Proc         the rest of multi_thread/Module/proc.c: Entries is fibers_readdir, fibers_lookup,
--              fh_lookup and fh_readdir; Files is open_file and show_file; Accounting is
--              switch_handler.
-- Single       single_thread/Module/fiber_ioctl.c (Types, Fibers, Local, Module, Loading) and
--              single_thread/Library/function_calls.c (Client).
-- Ult          multi_thread/src/ult.c and ult.h, the fibers of user space: Steps is ult_convert, ult_creat
--              and ult_switch_to as steps of threads that interleave, the macros context_switch and
--              context_switch_create cut at each access to what threads share; Owners, Ownership and
--              Exclusion treat the flag `running` as a lock; Storage is the fls functions, Stacks
--              get_ult_stack.
-- Thread       multi_thread/src/thread.c: the numbers of threads, by compare-and-swap, and the shared
--              block of arguments.
-- Cell         multi_thread/src/channel.c, model.c and model.h: the simulated cell of a mobile network.
--              State is the records and the bitmap macros, Channels is channel.c, Events is
--              ProcessEvent; Bookkeeping and Release treat the bitmap and the list together, Calls and
--              Endings whole events.
-- Numerical    multi_thread/src/numerical.c: Draws is the integer part of Random, Drawn
--              fills the draws of the interface Reals with Random and Expent.
-- Reals        the interface of floating-point numbers and random draws that Cell, Calendar and
--              Simulation take as a parameter, with three instances on which they compute.
-- Calendar     multi_thread/src/calqueue.c and calqueue.h. State is the structures and localinit, Insert
--              calqueue_put up to the resize, Dequeue calqueue_deq, Resize new_width and resize,
--              Operations the functions of the header. Insert and Dequeue take the resize as an
--              argument, since it calls them: Operations ties the knot with the depth 1, one resize
--              that does something, and none inside it. The loop of calqueue_deq runs on the fuel
--              nbuckets, one unit for each bucket. Shape is the well-formed queues, with any
--              property of the chains that insertion and removal keep (Chains); Gather, Taking,
--              Searching, Width and Rebuilding treat the parts of a resize, Bag and Refinement the
--              items without their order. Order, Stable, Lowest and Sequence treat the order of
--              priorities, for comparisons of numbers that are not NaN (IsOrder). The index of a
--              bucket may be below 0, since new_width may return a negative width: a run that reads
--              or writes there ends with the outcome `outside`.
-- Simulation   multi_thread/src/main.c. Queue is what the event loop needs of its queue, as operations
--              and laws; Loop is main_loop, on fuel for the number of rounds, Pending, Progress and
--              Safety the events that wait, and Joined fills the interface with the calendar queue and
--              puts loop, ProcessEvent and queue together. Launch and Starting are main,
--              Startup the order of main with its threads and the signal,
--              Countdown, Ending and Finishing the reports of the fibers as a step relation.
--
-- How the code is read. Numbers are natural; an `unsigned long` is below 2 ^ 64 and its arithmetic
-- is written `% word`. A pointer to a fiber is the index of the fiber, which its table finds again;
-- a pointer to user memory is a number. Kernel functions are not defined: `kmalloc`, `copy_from_user`,
-- `getnstimeofday`, the ftrace and kprobe registrations and the C library of the user program are
-- answers that a record holds (Task, Answers, Ftrace, Client), with success and failure both open.
-- `Hashing` holds the buckets in which the kernel puts
-- the keys of a hash table. A null or freed pointer that is followed is the outcome `oops`, and an access to memory past the
-- bitmap or the array of a fiber is `stray`; both are results of the model and not assumptions. A
-- switch is seen from the task: the registers and the FPU state with which it goes on.
--
-- Bounds and fuel. The fiber-local storage has 4096 slots (MAX_FLS), and the search for a free one is
-- given 4096 steps, one for each bit it may look at. The bitmap is declared with sizeof(MAX_FLS) = 4
-- bits, one word of 64, so that the bits from 64 on are memory beside it (bitmap_bits). Decimal
-- digits are given 20 steps: 2 ^ 64 has 20 digits. What holds of every reachable state is bounded by
-- the number of handlers since the module was loaded, below 2 ^ 64, where no counter has wrapped
-- around. Where an index passes through an `int`, in search_fiber and in the library, it is assumed
-- to be below 2 ^ 31.
--
-- Not modelled. The kernel's spin locks, RCU and preemption: each request is one step, as it is
-- where the threads of a process do not run requests at the same moment. The address of memory that
-- is freed and given out again. Messages to the log. The test programs, and the makefiles.
-- multi_thread/src: jmp.S, and that Expent of numerical.c stops the program for a negative mean.
-- Memory of malloc is taken to be there in Cell, Ult, Calendar and Simulation. That calqueue_get
-- returns the items in the order of their priorities: after a direct search it does not, and a width
-- with which the arithmetic does not round, on which this order rests, is none of `double`. The
-- average of the times that main.c prints.
pub mod Prelude
pub mod Calendar
pub mod Cell
pub mod Driver
pub mod Hooks
pub mod Library
pub mod Numerical
pub mod Proc
pub mod Reals
pub mod Simulation
pub mod Single
pub mod Thread
pub mod Ult
