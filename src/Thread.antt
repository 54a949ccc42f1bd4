-- ===== src/Thread.antt =====
-- src/thread.rs: the cooperative scheduler of kernel threads. The global state is the scheduler
-- behind `THREADS`, the next thread id and the counters of src/scheduler.rs.
--
-- `yield_now` and `exit_thread` give up the lock and then call `switch_context`, which stores the
-- outgoing stack pointer in the outgoing context. That pointer is the argument `rsp`. A result
-- names the thread that runs next; the thread switched away from resumes when it is named again.
pub mod Consistent
pub mod Steps
pub mod Exit
pub mod RoundRobin
pub mod Frame
pub mod Stack
pub mod Switching
mod Tests
use apogee.Base.{
  ℕ, ◌+◌, List, [], ◌∷◌, ◌++◌, Option, none, some, Bool, true, false, length, ◌==◌, if◌then◌else◌,
  add64,
}
use apogee.Base.Maps.{lookup, insert, remove}
use apogee.Scheduler.{Scheduler, note_thread_spawned, note_thread_exited}

abbrev pub bootstrap_id : ℕ
bootstrap_id = 0

-- `KernelThread`; the stack is the address of its buffer.
pub record KernelThread : Type 0 where
  pub id : ℕ
  pub process : ℕ
  pub rsp : ℕ
  pub stack : ℕ

-- `ThreadScheduler`
pub record ThreadScheduler : Type 0 where
  pub threads : List (ℕ × KernelThread)
  pub ready : List ℕ
  pub current : ℕ
  pub bootstrap_rsp : ℕ
  pub reaper : Option KernelThread

abbrev pub new : ThreadScheduler
new = record { threads = []; ready = []; current = bootstrap_id; bootstrap_rsp = 0; reaper = none }

-- The scheduler with the two statics that its operations touch.
pub record Threads : Type 0 where
  pub sched : ThreadScheduler
  pub next_id : ℕ
  pub counters : Scheduler

-- How a call of the module ends: in thread `current`, or in a panic.
pub data Outcome : Type 0 where
  running : Threads → Outcome
  panicked : Outcome

-- The thread is tracked and queued, once its memory is there.
unfoldable pub add_thread : Threads → ℕ → ℕ → ℕ → Threads × ℕ
add_thread t process stack rsp =
    let id = t.next_id in
    let thread : KernelThread = record { id = id; process = process; rsp = rsp; stack = stack } in
    (
      record {
        sched = record t.sched {
          threads = insert id thread t.sched.threads;
          ready = t.sched.ready ++ id ∷ [];
        };
        next_id = add64 t.next_id 1;
        counters = note_thread_spawned t.counters;
      },
      id,
    )

-- `ThreadScheduler::spawn` of a thread whose initial stack pointer is `rsp`. A null `stack` is a heap
-- with no room for the stack or for the nodes of the map and of the queue, which is a panic: no result.
unfoldable pub spawn : Threads → ℕ → ℕ → ℕ → Option (Threads × ℕ)
spawn t process stack rsp = if stack == 0 then none else some (add_thread t process stack rsp)

-- The exited thread is dropped here, on another thread's stack.
unfoldable pub drain_reaper : Threads → Threads
drain_reaper t = elim t.sched.reaper [
  | none ↦ t
  | some dead ↦ record t {
    sched = record t.sched { reaper = none };
    counters = note_thread_exited t.counters;
  }
]

-- A context is there to switch to: `expect` panics when a thread is missing from the map.
unfoldable pub has_context : ThreadScheduler → ℕ → Bool
has_context s id = elim (id == bootstrap_id) [
  | true ↦ true
  | false ↦ elim (lookup id s.threads) [ none ↦ false | some thread ↦ true ]
]

-- What `switch_context` writes through `prev`.
unfoldable pub save_context : ThreadScheduler → ℕ → ℕ → ThreadScheduler
save_context s id rsp = elim (id == bootstrap_id) [
  | true ↦ record s { bootstrap_rsp = rsp }
  | false ↦ elim (lookup id s.threads) [
    | none ↦ s
    | some thread ↦ record s { threads = insert id (record thread { rsp = rsp }) s.threads }
  ]
]

-- `yield_now` under the lock, when `next` has been popped off the ready queue.
unfoldable pub rotate : Threads → ℕ → List ℕ → ℕ → Outcome
rotate t next rest rsp =
    let prev = t.sched.current in
    let queued : ThreadScheduler = record t.sched { ready = rest ++ prev ∷ []; current = next } in
    if has_context t.sched prev
    then (if has_context t.sched next
        then running (record t { sched = save_context queued prev rsp })
        else panicked)
    else panicked

unfoldable pub yield_now : Threads → ℕ → Outcome
yield_now t rsp =
    let drained = drain_reaper t in
    elim drained.sched.ready [ [] ↦ running drained | next ∷ rest ↦ rotate drained next rest rsp ]

-- The exiting thread parks its box in the reaper slot.
unfoldable pub park : ThreadScheduler → ThreadScheduler
park s = elim (s.current == bootstrap_id) [
  | true ↦ s
  | false ↦ elim (lookup s.current s.threads) [
    | none ↦ s
    | some boxed ↦ record s { threads = remove s.current s.threads; reaper = some boxed }
  ]
]

unfoldable pub exit_thread : Threads → Outcome
exit_thread t =
    let drained = drain_reaper t in
    let parked = park drained.sched in
    elim parked.ready [
      | [] ↦ panicked
      | next ∷ rest ↦
          if has_context parked next
          then running (record drained { sched = record parked { ready = rest; current = next } })
          else panicked
    ]

-- The process tag of the running thread; the kernel's is 0.
unfoldable pub current_process : Threads → ℕ
current_process t = elim (t.sched.current == bootstrap_id) [
  | true ↦ 0
  | false ↦ elim (lookup t.sched.current t.sched.threads) [
    | none ↦ 0
    | some thread ↦ thread.process
  ]
]

unfoldable pub current_id : Threads → ℕ
current_id t = t.sched.current

unfoldable pub ready_count : Threads → ℕ
ready_count t = length t.sched.ready

unfoldable pub thread_count : Threads → ℕ
thread_count t = length t.sched.threads
