-- ===== src/Demos.antt =====
-- src/demos.rs: the threading demo. The bootstrap thread yields until the ready queue is empty; the
-- kernel threads yield and exit. A run is the sequence of their calls of src/thread.rs, each made by
-- the thread that runs then, on fuel.
pub mod Measure
pub mod Finish
pub mod Workers
pub mod Frame
pub mod Process
mod Tests
use apogee.Base.{some, none, Option, ℕ, zero, suc, ◌-◌, true, false, ◌==◌, if◌then◌else◌}
use apogee.Thread.{
  Threads, Outcome, running, panicked, bootstrap_id, spawn, yield_now, exit_thread, ready_count,
}

-- How a run ends: in the bootstrap thread behind its loop, in a panic, or at the end of the fuel.
pub data Driven : Type 0 where
  finished : Threads → Driven
  failed : Driven
  out_of_fuel : Driven

-- How many yields each thread has left before it exits.
abbrev pub Yields : Type 0
Yields = ℕ → ℕ

unfoldable pub yielded : Yields → ℕ → Yields
yielded left id x = if x == id then left x - 1 else left x

-- The loop `while thread::ready_count() > 0 { thread::yield_now() }` of the bootstrap thread, and
-- the other threads whenever they run. `rsp` is the stack pointer of the call at each fuel.
unfoldable pub drive : (ℕ → ℕ) → ℕ → Yields → Threads → Driven
drive rsp zero left t = out_of_fuel
drive rsp (suc fuel) left t = elim (t.sched.current == bootstrap_id) [
  | true ↦ elim (ready_count t == 0) [
    | true ↦ finished t
    | false ↦ elim (yield_now t (rsp fuel)) [
      | running u ↦ drive rsp fuel left u
      | panicked ↦ failed
    ]
  ]
  | false ↦ elim (left t.sched.current == 0) [
    | true ↦ elim (exit_thread t) [ running u ↦ drive rsp fuel left u | panicked ↦ failed ]
    | false ↦ elim (yield_now t (rsp fuel)) [
      | running u ↦ drive rsp fuel (yielded left t.sched.current) u
      | panicked ↦ failed
    ]
  ]
]

-- The yields of `worker_a` and of `worker_b` before they exit.
abbrev pub worker_a : ℕ
worker_a = 1

abbrev pub worker_b : ℕ
worker_b = 1

-- The stack of a spawned thread, and its first stack pointer.
pub record Spawned : Type 0 where
  pub stack : ℕ
  pub rsp : ℕ

-- `spawn_kernel`
unfoldable pub spawn_kernel : Threads → Spawned → Option (Threads × ℕ)
spawn_kernel t s = spawn t 0 s.stack s.rsp

unfoldable pub threading_demo : (ℕ → ℕ) → ℕ → Yields → Spawned → Spawned → Threads → Driven
threading_demo rsp fuel left a b t = elim (spawn_kernel t a) [
  | none ↦ failed
  | some (one, first) ↦ elim (spawn_kernel one b) [
    | none ↦ failed
    | some (two, second) ↦
        drive rsp fuel
          (λ x. if x == first then worker_a else if x == second then worker_b else left x) two
  ]
]
