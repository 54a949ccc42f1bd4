-- ===== src/Thread/Switching/Tests.antt =====
-- A yield of src/thread.rs over concrete stacks: thread 1 runs, thread 2 and the bootstrap thread
-- wait.
use apogee.Base.{ℕ, ◌+◌, refl, [], ◌∷◌, none, ◌==◌, if◌then◌else◌, arith}
use apogee.Base.Maps.{lookup}
use apogee.Scheduler
use apogee.Thread.{Threads, KernelThread}
use apogee.Thread.Consistent.{IsConsistent}
use apogee.Thread.Stack.{Saved, Stack, switch_in}
use apogee.Thread.Switching.{yield_switch}
use apogee.Thread.Switching.Contexts.{Frame, AreSaved, HasSwitched, Switches, yield_switch-Switches}

abbrev first : KernelThread
first = record { id = 1; process = 0; rsp = 0x5000; stack = 0x4000 }

abbrev second : KernelThread
second = record { id = 2; process = 7; rsp = 0x9000; stack = 0x8000 }

abbrev three : Threads
three = record {
  sched = record {
    threads = (2, second) ∷ (1, first) ∷ [];
    ready = 2 ∷ 0 ∷ [];
    current = 1;
    bootstrap_rsp = 0x100;
    reaper = none;
  };
  next_id = 3;
  counters = record Scheduler.new { threads_alive = 2; threads_spawned = 2 };
}

three-IsConsistent : IsConsistent three
three-IsConsistent = record {
  places = λ x. ground arith;
  single = λ x. ground arith;
  fresh = λ x h. ground arith;
  positive = omega arith;
  alive = refl;
}

abbrev registers : Saved
registers = record { rbp = 1; rbx = 2; r12 = 3; r13 = 4; r14 = 5; r15 = 6 }

abbrev stack : Stack
stack = record { sp = 0x5f00; mem = λ x. x + 7 }

abbrev frames : ℕ → Frame
frames id =
    let sp = if id == 2 then 0x9000 else 0x100 in
    record { sp = sp; context = switch_in sp stack.mem }

frames-AreSaved : AreSaved three stack frames (2 ∷ 0 ∷ [])
unfolding lookup
frames-AreSaved = record {
  saved = λ id h. ground arith;
  holds = λ id h. refl;
  below = λ id h. ground arith;
  apart = λ id h. ground arith;
}

yield_switch-Switches_example :
    Switches
      (HasSwitched three registers stack frames 2 (0 ∷ []))
      (yield_switch three registers stack)
yield_switch-Switches_example =
    yield_switch-Switches three registers stack frames 2 (0 ∷ []) three-IsConsistent refl
      (omega arith) (omega arith) frames-AreSaved
