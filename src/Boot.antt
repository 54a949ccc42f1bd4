-- ===== src/Boot.antt =====
-- src/main.rs: `kernel_main` from the page tables on to the executor loop. The set-up of the
-- processor before it, the heap smoke test and log lines are left out.
pub mod Started
pub mod Whole
pub mod Main
mod Tests
use apogee.Base.{ℕ, zero, suc, List, Bool, true, false, Option, none, some}
use apogee.Thread.{Threads}
use apogee.Keyboard.{Crates}
use apogee.Vga.{Writer, Color, brown, black, light_gray, set_color, write_string}
use apogee.Kernel.{Machine, Moment}
use apogee.Paging.{Paging}
use apogee.Memory.Mapping.{create_example_mapping}
use apogee.Allocator.InitHeap
use apogee.Allocator.InitHeap.{MapToError, init_heap}
use apogee.Gdt.{Selectors}
use apogee.Interrupts.{Interrupt}
use apogee.Userland.{Setup}
use apogee.Task
use apogee.Task.{Futures, Task}
use apogee.Task.Executor
use apogee.Task.Executor.{State, spawn}
use apogee.Demos
use apogee.Demos.{Spawned, threading_demo}
use apogee.Demos.Process
use apogee.Demos.Process.{Demo, userland_demo}

-- `DEFAULT_FOREGROUND` and `DEFAULT_BACKGROUND` of src/vga_buffer.rs
unfoldable pub reset_color : Writer → Writer
reset_color w = set_color w light_gray black

-- The text in the banner's colour, and the text behind it.
pub record Banner : Type 0 where
  pub art : List ℕ
  pub facts : List ℕ

unfoldable pub print_banner : Writer → Banner → Writer
unfolding reset_color
print_banner w b =
    let coloured = write_string (set_color w brown black) b.art in
    write_string (reset_color coloured) b.facts

-- What a boot meets: the stacks of the demo's threads, the stack pointers of switches, what the
-- demo process raises, the formatted banner, the two futures with what they share, and the static
-- that the next task id is in; and the fuel of the two loops.
pub record Inputs (fs : Futures) : Type 0 where
  pub stack_a : Spawned
  pub stack_b : Spawned
  pub rsp : ℕ → ℕ
  pub now : ℕ → Moment
  pub events : List Interrupt
  pub banner : Banner
  pub example_task : fs.Future
  pub print_keypresses : fs.Future
  pub world : fs.World
  pub next_task : ℕ
  pub thread_fuel : ℕ
  pub user_fuel : ℕ

-- How a boot ends: in the executor loop, in a panic, or with the fuel used up.
pub data Booted (p : Paging) (c : Crates) (fs : Futures) : Type 0 where
  loops : Setup p c → State c fs → Booted p c fs
  panicked : Booted p c fs
  spent : Booted p c fs

module _ (p : Paging) (c : Crates) (fs : Futures) (sels : Selectors) (i : Inputs fs) where
  unfoldable pub spawn_both : Setup p c → State c fs → Task fs → Task fs → Booted p c fs
  spawn_both s fresh example keypresses = elim (spawn c fs fresh example) [
    | none ↦ panicked
    | some first ↦ elim (spawn c fs first keypresses) [ none ↦ panicked | some both ↦ loops s both ]
  ]

  unfoldable pub start_executor : Setup p c → Booted p c fs
  start_executor s =
      let (example, next) = Task.new fs i.next_task i.example_task in
      let (keypresses, after) = Task.new fs next i.print_keypresses in
      let fresh : State c fs = record {
        executor = Executor.new c fs;
        counters = s.machine.threads.counters;
        world = i.world;
      } in
      spawn_both s fresh example keypresses

  unfoldable pub after_userland : Demo p c → Booted p c fs
  after_userland (Process.not_created s e) = start_executor s
  after_userland (Process.completed s) = start_executor s
  after_userland Process.broken = panicked
  after_userland Process.spent = spent

  -- The threads of the machine replaced.
  abbrev pub with_threads : Setup p c → Threads → Setup p c
  with_threads s t = record s { machine = record s.machine { threads = t } }

  unfoldable pub after_threading : Setup p c → Demos.Driven → Booted p c fs
  after_threading s (Demos.finished t) =
      after_userland (userland_demo p c sels i.now i.user_fuel i.events (with_threads s t))
  after_threading s Demos.failed = panicked
  after_threading s Demos.out_of_fuel = spent

  -- The machine with the heap and the banner on its screen.
  abbrev pub with_heap : Setup p c → InitHeap.Memory p → Setup p c
  with_heap s m = record s {
    mapper = m.mapper;
    frames = m.frames;
    machine = record s.machine {
      allocator = m.allocator;
      writer = print_banner s.machine.writer i.banner;
    };
  }

  unfoldable pub after_heap : Setup p c → InitHeap.Memory p × Option MapToError → Booted p c fs
  unfolding print_banner
  after_heap s (m, some e) = panicked
  after_heap s (m, none) =
      after_threading (with_heap s m)
        (threading_demo i.rsp i.thread_fuel (λ id. 0) i.stack_a i.stack_b s.machine.threads)

  unfoldable pub after_example : Setup p c → Option (p.Mapper × p.Frames) → Booted p c fs
  after_example s none = panicked
  after_example s (some (mapper, frames)) =
      after_heap s
        (init_heap p (record { mapper = mapper; frames = frames; allocator = s.machine.allocator }))

  unfoldable pub kernel_main : Setup p c → Booted p c fs
  unfolding create_example_mapping
  kernel_main s =
      after_example s (create_example_mapping p (p.containing_address 0) s.mapper s.frames)
