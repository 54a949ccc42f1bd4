-- ===== src/Kernel/Alive.antt =====
-- The thread operations of src/thread.rs leave the count of live processes of src/scheduler.rs
-- alone.
use apogee.Base.{ℕ, ◌≡◌, List, [], ◌∷◌, ◌++◌, Bool, true, false, if◌then◌else◌, arith}
use apogee.Scheduler.{note_thread_exited}
use apogee.Thread.{
  Threads, ThreadScheduler, Outcome, save_context, drain_reaper, rotate, yield_now, has_context,
  park, exit_thread,
}

-- The thread scheduler leaves the count of live processes alone.
abbrev pub Kept : Threads → Outcome → Type 0
Kept t (Outcome.running u) = u.counters.processes_alive ≡ t.counters.processes_alive
Kept t Outcome.panicked = Unit

Kept-if :
    (t : Threads) (b : Bool) (o p : Outcome) → Kept t o → Kept t p → Kept t (if b then o else p)
Kept-if t true o p k l = k
Kept-if t false o p k l = l

module _ (t : Threads) where
  drained : (drain_reaper t).counters.processes_alive ≡ t.counters.processes_alive
  unfolding drain_reaper note_thread_exited
  drained = ground arith

  rotate-Kept :
      (d : Threads) (next : ℕ) (rest : List ℕ) (rsp : ℕ)
      → d.counters.processes_alive ≡ t.counters.processes_alive
      → Kept t (rotate d next rest rsp)
  unfolding rotate
  rotate-Kept d next rest rsp e =
      let s : ThreadScheduler = record d.sched {
        ready = rest ++ d.sched.current ∷ [];
        current = next;
      } in
      let o : Outcome = Outcome.running (record d { sched = save_context s d.sched.current rsp }) in
      let checked : Outcome = if has_context d.sched next then o else Outcome.panicked in
      Kept-if t (has_context d.sched d.sched.current) checked Outcome.panicked
        (Kept-if t (has_context d.sched next) o Outcome.panicked e tt) tt

  pub yield_now-Kept : (rsp : ℕ) → Kept t (yield_now t rsp)
  unfolding yield_now
  yield_now-Kept rsp = go (drain_reaper t).sched.ready
    where
      go :
          (q : List ℕ)
          → Kept t (elim q [
            | [] ↦ Outcome.running (drain_reaper t)
            | next ∷ rest ↦ rotate (drain_reaper t) next rest rsp
          ])
      go [] = drained
      go (next ∷ rest) = rotate-Kept (drain_reaper t) next rest rsp drained

  pub exit_thread-Kept : Kept t (exit_thread t)
  unfolding exit_thread
  exit_thread-Kept = go (park (drain_reaper t).sched).ready
    where
      go :
          (q : List ℕ)
          → Kept t (elim q [
            | [] ↦ Outcome.panicked
            | next ∷ rest ↦
                if has_context (park (drain_reaper t).sched) next
                then Outcome.running (record (drain_reaper t) {
                  sched = record (park (drain_reaper t).sched) { ready = rest; current = next };
                })
                else Outcome.panicked
          ])
      go [] = tt
      go (next ∷ rest) =
          Kept-if t (has_context (park (drain_reaper t).sched) next) _ Outcome.panicked drained tt
