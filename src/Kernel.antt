-- ===== src/Kernel.antt =====
-- src/kernel/mod.rs and src/kernel/service.rs: the services, each on the state that it owns, and
-- the router `Kernel::call`. The services take their locks one after the other and hold none while
-- they call another, so an operation is one step on the state of all.
pub mod Abi
pub mod Compat
pub mod Alive
pub mod Authority
pub mod Registry
pub mod Lifecycle
mod Tests
use apogee.Base.{
  ℕ, List, [], ◌∷◌, Bool, true, false, not, Option, none, some, length, ◌==◌, if◌then◌else◌, add64,
}
use apogee.Base.Maps.{lookup, insert, remove}
use apogee.Allocator.FixedSizeBlock
use apogee.Allocator.FixedSizeBlock.{FixedSizeBlockAllocator}
use apogee.Scheduler.{Scheduler, note_process_spawned, note_process_exited, tick}
use apogee.Thread
use apogee.Thread.{Threads, Outcome}
use apogee.Process
use apogee.Process.{Process, ProcessSnapshot, to_snapshot}
use apogee.Keyboard
use apogee.Keyboard.{Crates, Keyboard, add_scancode, read_byte}
use apogee.Vga.{Writer, write_string, utf8}
use apogee.Kernel.Abi.{
  Caller, kernel, user, irq, SysError, bad_handle, denied, SchedulerStats, MemoryStats, Request,
  process_create, process_exit, process_snapshot, process_count, thread_spawn, thread_yield,
  thread_exit, scheduler_stats, memory_stats, timer_ticks, input_read_byte, console_write, Response,
  ok, written, byte, process, snapshot, thread, count, stats, memory, ticks, err,
}

-- What the services own. The counters of src/scheduler.rs stand in `threads`.
pub record Machine (c : Crates) : Type 0 where
  pub processes : List (ℕ × Process)
  pub next_pid : ℕ
  pub threads : Threads
  pub allocator : FixedSizeBlockAllocator
  pub keyboard : Keyboard c
  pub writer : Writer

-- What a call finds on the processor and the heap: the stack pointer at a context switch, and the
-- stack of a spawned thread, null when the heap has no room for it, with its first stack pointer.
pub record Moment : Type 0 where
  pub rsp : ℕ
  pub stack : ℕ
  pub initial_rsp : ℕ

-- How a call ends: with a response, once the caller's thread runs again; on another thread, with
-- the caller's gone; or in a panic.
pub data Answer (c : Crates) : Type 0 where
  answers : Machine c → Response → Answer c
  never_returns : Machine c → Answer c
  panics : Answer c

module _ (c : Crates) where
  -- `f` on the counters
  abbrev with_counters : Machine c → (Scheduler → Scheduler) → Machine c
  with_counters m f = record m { threads = record m.threads { counters = f m.threads.counters } }

  -- `ProcessService`
  unfoldable pub register : Machine c → Process → Machine c × ℕ
  register m p =
      let inserted : Machine c = record m { processes = insert p.pid p m.processes } in
      (with_counters inserted note_process_spawned, p.pid)

  unfoldable pub create : Machine c → ℕ → ℕ → Machine c × ℕ
  create m entry stack_top =
      let (p, next) = Process.new m.next_pid entry stack_top in
      register (record m { next_pid = next }) p

  unfoldable pub exit : Machine c → ℕ → ℕ → Machine c × Bool
  exit m pid status = elim (lookup pid m.processes) [
    | none ↦ (m, false)
    | some removed ↦
        let left : Machine c = record m { processes = remove pid m.processes } in
        (with_counters left note_process_exited, true)
  ]

  unfoldable pub find_snapshot : Machine c → ℕ → Option ProcessSnapshot
  find_snapshot m pid = elim (lookup pid m.processes) [
    | none ↦ none
    | some p ↦ some (to_snapshot p)
  ]

  unfoldable pub registered : Machine c → ℕ
  registered m = length m.processes

  -- `ThreadService`
  unfoldable pub spawn : Machine c → Moment → ℕ → ℕ → Option (Machine c × ℕ)
  spawn m now entry tag = elim (Thread.spawn m.threads tag now.stack now.initial_rsp) [
    | none ↦ none
    | some (after, id) ↦ some (record m { threads = after }, id)
  ]

  -- `SchedulerService::stats`
  unfoldable pub counters : Machine c → SchedulerStats
  counters m =
      let s = m.threads.counters in
      record {
        ticks = s.tick_count;
        processes_alive = s.processes_alive;
        processes_spawned = s.processes_spawned;
        threads_alive = s.threads_alive;
        threads_spawned = s.threads_spawned;
        tasks_alive = s.tasks_alive;
        tasks_spawned = s.tasks_spawned;
        tasks_completed = s.tasks_completed;
      }

  -- `MemoryService::stats`
  unfoldable pub heap_stats : Machine c → MemoryStats
  heap_stats m =
      let s = FixedSizeBlock.stats m.allocator in
      record { heap_size = s.heap_size; heap_free = s.free_bytes }

  -- The loop of `ConsoleService::write`: each byte is printed as the character with that number.
  unfoldable pub print_bytes : Writer → List ℕ → Writer
  print_bytes w [] = w
  print_bytes w (b ∷ bytes) = print_bytes (write_string w (utf8 b)) bytes

  abbrev pub is_kernel : Caller → Bool
  is_kernel kernel = true
  is_kernel (user pid) = false
  is_kernel irq = false

  -- A process may name no process but itself.
  abbrev pub may_name : Caller → ℕ → Bool
  may_name kernel pid = true
  may_name (user caller_pid) pid = caller_pid == pid
  may_name irq pid = true

  abbrev pub continue : Machine c → Outcome → (Machine c → Answer c) → Answer c
  continue m (Outcome.running t) then_do = then_do (record m { threads = t })
  continue m Outcome.panicked then_do = panics

  unfoldable pub call : Machine c → Moment → Caller → Request → Answer c
  call m now caller (process_create entry stack_top) = elim (is_kernel caller) [
    | false ↦ answers m (err denied)
    | true ↦ let (after, pid) = create m entry stack_top in answers after (process pid)
  ]
  call m now caller (process_exit pid status) = elim (may_name caller pid) [
    | false ↦ answers m (err denied)
    | true ↦
        let (after, removed) = exit m pid status in
        if removed then answers after ok else answers after (err bad_handle)
  ]
  call m now caller (process_snapshot pid) = elim (may_name caller pid) [
    | false ↦ answers m (err denied)
    | true ↦ answers m (snapshot (find_snapshot m pid))
  ]
  call m now caller process_count = elim (is_kernel caller) [
    | false ↦ answers m (err denied)
    | true ↦ answers m (count (registered m))
  ]
  call m now caller (thread_spawn entry tag) = elim (is_kernel caller) [
    | false ↦ answers m (err denied)
    | true ↦ elim (spawn m now entry tag) [
      | none ↦ panics
      | some (after, id) ↦ answers after (thread id)
    ]
  ]
  call m now caller thread_yield =
      continue m (Thread.yield_now m.threads now.rsp) (λ after. answers after ok)
  call m now caller thread_exit = continue m (Thread.exit_thread m.threads) never_returns
  call m now caller scheduler_stats = answers m (stats (counters m))
  call m now caller memory_stats = answers m (memory (heap_stats m))
  call m now caller timer_ticks = answers m (ticks m.threads.counters.tick_count)
  call m now caller input_read_byte =
      let (after, read) = read_byte c m.keyboard in
      answers (record m { keyboard = after }) (byte read)
  call m now caller (console_write bytes) =
      answers (record m { writer = print_bytes m.writer bytes }) (written (length bytes))

  -- The interrupt entry points.
  unfoldable pub on_tick : Machine c → Machine c
  on_tick m = with_counters m (λ s. (tick s).0)

  unfoldable pub on_scancode : Machine c → ℕ → Machine c
  on_scancode m scancode = record m { keyboard = (add_scancode c m.keyboard scancode).0 }
