-- ===== src/Lib.antt =====
-- apogee, a small x86-64 kernel in Rust: a verification development for its core.
--
-- The program. A heap of 100 KiB is served by a slab allocator (src/allocator/fixed_size_block.rs)
-- in front of an address-ordered, coalescing free list (src/allocator/linkedlist.rs). Kernel threads
-- are cooperative (src/thread.rs): a round-robin ready queue, and a reaper slot for the thread that
-- exits. Services own the process registry, the counters, the heap statistics, the keyboard and the
-- console (src/kernel/service.rs), and `Kernel::call` (src/kernel/mod.rs) is the one way to them, for
-- kernel code and for the system calls of ring 3 (src/syscall.rs). Physical frames come from the
-- bootloader's memory map (src/memory.rs). A process is created with two pages of its own and a
-- thread that drops into ring 3 (src/userland.rs); its faults end it (src/interrupts.rs). Asynchronous
-- tasks run on an executor that polls what a waker queued and halts when nothing is
-- (src/task/executor.rs). A boot (src/main.rs) sets up the memory, runs two demos of the threads and
-- of a process (src/demos.rs), and ends in the executor.
--
-- The files. Each component is a file whose definitions carry the names of the source, and a folder
-- of what is proved of it:
--   Base                      words, Boolean tests, lists, maps from numbers, bit masks
--   Allocator                 src/allocator/mod.rs: `align_up`; Allocator/InitHeap is `init_heap`
--   Allocator/LinkedList      src/allocator/linkedlist.rs; Client is any history of calls
--   Allocator/FixedSizeBlock  src/allocator/fixed_size_block.rs; Client is any history of calls
--   Allocator/Bump            src/allocator/bump.rs
--   Scheduler                 src/scheduler.rs: the counters
--   Thread                    src/thread.rs; Thread/Stack is the first stack and `switch_context`,
--                             Thread/Switching is a yield with the switch behind it
--   Process                   src/process.rs; its helpers are Kernel/Compat
--   Keyboard                  src/task/keyboard.rs; Keyboard/Keypresses is `print_keypresses`
--   Vga                       src/vga_buffer.rs
--   Kernel                    src/kernel/mod.rs and service.rs; Kernel/Abi is src/kernel/abi.rs
--   Syscall                   src/syscall.rs; Syscall/Stub is the assembly of `syscall_isr`
--   Memory                    src/memory.rs: `MonotonicFrameAllocator`; Memory/Mapping is
--                             `create_example_mapping`
--   Paging                    the page tables that src/allocator/mod.rs and src/userland.rs are given
--   Gdt                       src/gdt.rs: the selectors
--   Userland                  src/userland.rs
--   Interrupts                src/interrupts.rs
--   Task, Task/Executor       src/task/mod.rs and src/task/executor.rs
--   Logger                    src/logger.rs
--   Demos                     src/demos.rs: the threading demo; Demos/Process is `userland_demo`
--   Boot                      src/main.rs
--   TestRunner                src/lib.rs and src/serial.rs
-- The Tests modules run the definitions on concrete inputs and apply the theorems to them.
--
-- The model. `usize` and `u64` are natural numbers, with the wrap-around at 2^64 of each operation
-- written out. A pointer is its address and null is 0; the header of a free region is the node of a
-- list. State that the source keeps in statics behind locks is passed along, and what runs under
-- one lock is one step. A switch of threads ends a call in the state in which the next thread runs;
-- the stack pointer that `switch_context` saves is an argument. A panic is a result of its own, and
-- the debug assertions of the allocator are Boolean functions of their own. The memory of a process
-- is a function from an address to the byte there, or to none where no page is mapped, so that a
-- system call may fault. The queue of crossbeam, the waker of futures, the decoder of pc-keyboard,
-- `PhysFrame::containing_address`, and the page tables and the descriptor table of the x86_64 crate
-- are parameters, with what their documentation promises as laws; Keyboard/ListQueue,
-- Paging/Tables, Paging/Monotonic (with the frame allocator of src/memory.rs) and Gdt/Slots show
-- that the laws can hold. A future is a parameter, too: a function of the world that its polls
-- share, with the wakers that a poll wakes. Text that is formatted by the `Debug` of a crate, or by
-- `format_args`, is an argument.
--
-- Fuel. The loop of `next_frame` over regions runs on fuel: one round more than the memory map has
-- regions. So does that of `run_ready_tasks`, which ends only if the futures stop waking: one round
-- more than the ids in the queue and the wakes to come, for futures that wake finitely often. The
-- loops of the demos run with the threads that they drive, so on fuel, too: two turns for each call
-- that a thread has left, and four more than the interrupts of a process before it exits.
-- Every other loop recurses on the list or the count that it walks.
--
-- Not modelled: the `iretq` that enters ring 3 first, the machine code of the demo programs, the
-- active page table that src/memory.rs reads from a control register, loading the segment and
-- interrupt tables, the PIC and the UART, the heap smoke test of src/demos.rs, which only calls the
-- `alloc` crate, and the scancode decoder. What the collections of the kernel itself take from the
-- heap is not part of its state: a spawn of a thread panics when the heap has no room for it, which
-- is an argument, and no other allocation of the kernel's collections fails. Log lines are left out
-- of the components that write them.
pub mod Base
pub mod Allocator
pub mod Scheduler
pub mod Thread
pub mod Vga
pub mod Memory
pub mod Process
pub mod Keyboard
pub mod Interrupts
pub mod Task
pub mod Kernel
pub mod Syscall
pub mod Logger
pub mod Paging
pub mod Demos
pub mod Boot
pub mod TestRunner
pub mod Gdt
pub mod Userland
