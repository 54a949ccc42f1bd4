-- ===== src/Demos/Frame.antt =====
-- What the demos of src/demos.rs do not touch.
use apogee.Base.{
  ◌≢◌, ℕ, zero, suc, ◌+◌, ◌<◌, ◌≡◌, refl, ◌∙◌, inl, inr, ◌==◌, Bool-cases, word, add64, arith,
}
use apogee.Scheduler.{note_thread_spawned}
use apogee.Thread.Steps.{spawn-add_thread}
use apogee.Thread.{
  Threads, Outcome, running, panicked, add_thread, yield_now, exit_thread, ready_count,
}
use apogee.Thread.Frame.{Keeps, KeptBy, yield_now-KeptBy, exit_thread-KeptBy}
use apogee.Demos.{
  Driven, finished, failed, out_of_fuel, Yields, yielded, Spawned, spawn_kernel, drive,
  threading_demo,
}

abbrev pub KeptByRun : Threads → Driven → Type 0
KeptByRun t (finished u) = Keeps t u
KeptByRun t failed = Unit
KeptByRun t out_of_fuel = Unit

KeptByRun-running :
    (s t : Threads) (k : Threads → Driven) (o : Outcome)
    → Keeps s t
    → KeptBy t o
    → ((u : Threads) → Keeps s u → KeptByRun s (k u))
    → KeptByRun s (elim o [ running u ↦ k u | panicked ↦ failed ])
KeptByRun-running s t k (running u) h e f = f u (e.0 ∙ h.0, e.1 ∙ h.1)
KeptByRun-running s t k panicked h e f = tt

drive-KeptByRun :
    (rsp : ℕ → ℕ) (fuel : ℕ) (left : Yields) (s t : Threads)
    → Keeps s t
    → KeptByRun s (drive rsp fuel left t)
unfolding drive
drive-KeptByRun rsp zero left s t h = tt
drive-KeptByRun rsp (suc fuel) left s t h = elim (Bool-cases (t.sched.current == 0)) [
  | inl here ↦ elim (Bool-cases (ready_count t == 0)) [
    | inl empty ↦ rw (here, empty, drive) h
    | inr waiting ↦
        rw (here, waiting, drive)
          (KeptByRun-running s t (drive rsp fuel left) (yield_now t (rsp fuel)) h
            (yield_now-KeptBy t (rsp fuel)) (λ u k. drive-KeptByRun rsp fuel left s u k))
  ]
  | inr real ↦ elim (Bool-cases (left t.sched.current == 0)) [
    | inl last ↦
        rw (real, last, drive)
          (KeptByRun-running s t (drive rsp fuel left) (exit_thread t) h (exit_thread-KeptBy t)
            (λ u k. drive-KeptByRun rsp fuel left s u k))
    | inr more ↦
        rw (real, more, drive)
          (KeptByRun-running s t (drive rsp fuel (yielded left t.sched.current))
            (yield_now t (rsp fuel)) h (yield_now-KeptBy t (rsp fuel))
            (λ u k. drive-KeptByRun rsp fuel (yielded left t.sched.current) s u k))
  ]
]

-- The threading demo takes two thread ids, and leaves the count of processes.
abbrev pub TakesTwo : Threads → Driven → Type 0
TakesTwo t (finished u) =
    (u.next_id ≡ t.next_id + 2) × (u.counters.processes_alive ≡ t.counters.processes_alive)
TakesTwo t failed = Unit
TakesTwo t out_of_fuel = Unit

TakesTwo-KeptByRun :
    (t s : Threads) (d : Driven)
    → s.next_id ≡ t.next_id + 2
    → s.counters.processes_alive ≡ t.counters.processes_alive
    → KeptByRun s d
    → TakesTwo t d
TakesTwo-KeptByRun t s (finished u) e f k = (k.0 ∙ e, k.1 ∙ f)
TakesTwo-KeptByRun t s failed e f k = tt
TakesTwo-KeptByRun t s out_of_fuel e f k = tt

add_thread-frame :
    (t : Threads) (process stack rsp : ℕ)
    → t.next_id + 1 < word
    → ((add_thread t process stack rsp).0.next_id ≡ t.next_id + 1)
      × ((add_thread t process stack rsp).0.counters.processes_alive ≡ t.counters.processes_alive)
unfolding add_thread note_thread_spawned add64
add_thread-frame t process stack rsp h = (omega arith, refl)

pub threading_demo-TakesTwo :
    (rsp : ℕ → ℕ) (fuel : ℕ) (left : Yields) (a b : Spawned) (t : Threads)
    → t.next_id + 2 < word
    → a.stack ≢ 0
    → b.stack ≢ 0
    → TakesTwo t (threading_demo rsp fuel left a b t)
unfolding threading_demo spawn_kernel
threading_demo-TakesTwo rsp fuel left a b t room first_stack second_stack =
    let one : Threads = (add_thread t 0 a.stack a.rsp).0 in
    let two : Threads = (add_thread one 0 b.stack b.rsp).0 in
    let f = add_thread-frame t 0 a.stack a.rsp (omega arith) in
    let g = add_thread-frame one 0 b.stack b.rsp (omega (arith, f.0)) in
    rw
      (
        spawn-add_thread t 0 a.stack a.rsp first_stack,
        spawn-add_thread one 0 b.stack b.rsp second_stack,
        threading_demo,
      )
      (TakesTwo-KeptByRun t two _ (omega (arith, f.0, g.0)) (g.1 ∙ f.1)
        (drive-KeptByRun rsp fuel _ two two (refl, refl)))
