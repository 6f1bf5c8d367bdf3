-- ===== src/Lib.antt =====
-- the_rack, a small AArch64 kernel: a model of its core and the theorems that make it correct.
-- Paths are from the repository's root.
--
-- Parts, and how they interact. kernel/src/frames.rs hands out physical frames;
-- kernel/src/paging.rs reads the tables that map them and copies between address spaces;
-- kernel/src/tasks.rs schedules tasks and ends, restarts and supervises them;
-- kernel/src/notify.rs keeps notification bits and wakes tasks by them; kernel/src/ipc.rs passes
-- messages and lends memory between tasks, and parks and wakes them by the scheduler;
-- kernel/src/syscall.rs dispatches what a task asks for to these. kernel/src/virtio.rs agrees with a
-- device on features over its registers, and kernel/src/virtqueue.rs passes it buffers in a frame of
-- the allocator. kernel/src/fdt.rs reads the device tree, from which the allocator learns of memory.
-- kernel/src/exceptions.rs takes every trap to its handler: a system call to the dispatcher, an
-- interrupt to the notifications, the timer of kernel/src/timer.rs and the scheduler, and a task's
-- fault to the scheduler.
--
-- Files. Base: shared names, Boolean tests, lists, panics, bits of a word. Frames.Bitmap:
-- `Bitmap` (is_set, set, set_range, clear_range, first_clear). Frames.Allocator: `init`,
-- `reserve_range`, `adopt`, `alloc`, `alloc_contiguous`, `free`, `free_contiguous`; Frames.Count:
-- how many bits are clear. Paging: `lookup`, `user_range`, `translate`, `copy_across`;
-- Paging.Words: a u64 in memory; Paging.Device: `map_device`. Kernel: the state behind all the
-- locks; Kernel.Prog: handlers that may give up the CPU. Tasks: `next_runnable`,
-- `unblock_deferred`, `reap_zombies`, `switch_to_next`, `park`; Notify: `route`, `on_irq`,
-- `post`, `take`; Ipc: the tables and `deliver`, with `borrow` in Ipc.Lending, `abandon` in
-- Ipc.Waiting, `send` in Ipc.Sending, `recv` in Ipc.Receiving and `reply` in Ipc.Answering;
-- Lifecycle: `spawn_in`, `exit_current`, `fault_current`, `wait_for_fault`, `restart`,
-- `release_dead`; Syscall: `dispatch`. Virtio: the registers of a transport, `reset` and
-- `negotiate`; Virtio.Discovery: `probe`, `discover`, `find`. Virtqueue: `Queue` (new, add,
-- take_used, recycle, release); Virtqueue.Represents: what a queue stands for; Virtqueue.Runs:
-- the abstract queue and the steps of driver and device. Fdt: `probe`, `init` and the bounded
-- reads of a blob; Fdt.Walk: `Walker::next` and `Properties::next`; Fdt.Lookup: `property`,
-- `reg`, `find_compatible_after`; Fdt.MemoryMap: `find_node`, `memory_map`. Timer: `arm_next`,
-- `on_tick`. Exceptions: `handle_exception`, `dispatch_irq`. A file below one of these is about
-- what its name says; the files named Sample and Tests hold a small concrete kernel and runs of
-- the model on it.
--
-- How code becomes a definition. Numbers are natural numbers, with the bounds of their machine
-- types written out. Arithmetic of the allocator that the source does not guard panics when it
-- leaves 64 bits; a panic aborts the kernel, so it has no state after it. Sums of addresses in
-- Paging and Ipc are plain: they come after the permission checks, which bound them by the
-- kernel's half. Physical memory is a function from addresses to bytes, which the kernel reaches
-- through its alias of it. Interrupts are masked while a handler runs, so between two switches it
-- is one step on the state; `yield` of Kernel.Prog is the point where another task runs, after
-- which the handler goes on from whatever state it finds. `task_finished` runs with interrupts
-- enabled, and what an interrupt between its two parts runs is an argument. An entry of an array
-- indexed by a task is a function of the slot, since the code checks the slot first.
--
-- A device is what its registers answer after the accesses so far, and what it writes to memory. The
-- fields of a virtqueue's rings are words of their own widths in the bytes of its frame, and the
-- fences of the source have no counterpart, since a step is seen whole. A slice of the device tree is
-- an address and a length; `core::str::from_utf8` succeeding is a parameter, and 32-bit sums that the
-- source does not guard panic when they wrap.
--
-- A trap gives the variables of Exceptions as they are when the handler returns or first gives up the
-- CPU, and the program that is left. The number of the interrupt and the timer's counter are what the
-- hardware answered, and the writes that release an interrupt are a list.
--
-- Bounds and fuel. Tables have 8 tasks, 4 leases, 8 routes and 32 transports, as in the source.
-- The walk of `user_range` takes as many rounds as the range can have pages; `copy_across` takes
-- a round for each byte at most; `reap_zombies` a round for each slot and one more. A walk of the
-- device tree moves by four bytes a round, so the bytes that are left and one more are enough;
-- its loops that run out of rounds count as panics, which the theorems exclude. `recycle` may
-- visit 65535 descriptors before its 16-bit length overflows. The wait of `reset` has no bound in
-- the source, and its fuel is an argument. The loop of yields that ends a task is endless in the
-- source; the model runs a number of rounds that is an argument, and what is left after them is
-- `spent`, which is no panic. The waiting loops of `recv` and `wait_for_fault` have no bound in
-- the source: their fuel is an argument, running out is an answer of its own, and the theorems
-- hold for every fuel.
--
-- Not modelled: the building and freeing of page tables (the interface `Spaces` of Tasks stands
-- for them, and the argument `map_range` of Paging.Device), the console and the timer's count
-- (parameters of Syscall), the interrupt controller's registers, what the exception report prints,
-- the assembly, the start-up code and the self tests. The sum that gives the kernel's alias of a
-- physical address is not checked.
pub mod Base
pub mod Frames
pub mod Paging
pub mod Kernel
pub mod Tasks
pub mod Notify
pub mod Ipc
pub mod Lifecycle
pub mod Syscall
pub mod Timer
pub mod Virtio
pub mod Exceptions
pub mod Fdt
pub mod Virtqueue
