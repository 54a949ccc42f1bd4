-- ===== src/Thread/Tests.antt =====
-- The scheduler of src/thread.rs with thread 1 running, thread 2 and the bootstrap thread waiting.
use apogee.Base.{◌≡◌, refl, [], ◌∷◌, none, arith}
use apogee.Scheduler
use apogee.Scheduler.{Scheduler}
use apogee.Thread.{Threads, KernelThread, yield_now, exit_thread}
use apogee.Thread.Consistent.{IsConsistent}
use apogee.Thread.Steps.{Ends}
use apogee.Thread.Exit.{HasExited, exit_thread-Ends}
use apogee.Thread.RoundRobin.{HasYielded, yield_now-HasYielded, yields, yields-turn}

abbrev first : KernelThread
first = record { id = 1; process = 0; rsp = 0x5000; stack = 0x4000 }

abbrev second : KernelThread
second = record { id = 2; process = 7; rsp = 0x9000; stack = 0x8000 }

abbrev three : Threads
three = record {
  sched = record {
    threads = (2, second) ∷ (1, first) ∷ [];
    ready = 2 ∷ 0 ∷ [];
    current = 1;
    bootstrap_rsp = 0x100;
    reaper = none;
  };
  next_id = 3;
  counters = record Scheduler.new { threads_alive = 2; threads_spawned = 2 };
}

three-IsConsistent : IsConsistent three
three-IsConsistent = record {
  places = λ x. ground arith;
  single = λ x. ground arith;
  fresh = λ x h. ground arith;
  positive = omega arith;
  alive = refl;
}

yield_now-HasYielded_example : Ends (HasYielded three 0x4f00 2 (0 ∷ [])) (yield_now three 0x4f00)
yield_now-HasYielded_example = yield_now-HasYielded three 0x4f00 2 (0 ∷ []) three-IsConsistent refl

exit_thread-Ends_example : Ends (HasExited three) (exit_thread three)
exit_thread-Ends_example = exit_thread-Ends three three-IsConsistent (omega arith)

yields-turn_example :
    Ends (λ u. IsConsistent u × (u.sched.current ≡ 0)) (yields (0x4f00 ∷ 0x8f00 ∷ []) three)
yields-turn_example = yields-turn (0x4f00 ∷ 0x8f00 ∷ []) three 1 0 three-IsConsistent refl refl
