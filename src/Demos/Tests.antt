-- ===== src/Demos/Tests.antt =====
-- Runs of the loop of src/demos.rs and of its threading demo.
use apogee.Base.{ℕ, ◌+◌, refl, [], ◌∷◌, none, arith}
use apogee.Scheduler
use apogee.Thread.{Threads, KernelThread}
use apogee.Thread.Consistent.{IsConsistent}
use apogee.Demos.{Yields, Spawned, drive}
use apogee.Demos.Finish.{IsQuiet, Finishes, drive-Finishes}

abbrev first : KernelThread
first = record { id = 1; process = 0; rsp = 0x5000; stack = 0x4000 }

abbrev second : KernelThread
second = record { id = 2; process = 7; rsp = 0x9000; stack = 0x8000 }

abbrev three : Threads
three = record {
  sched = record {
    threads = (2, second) ∷ (1, first) ∷ [];
    ready = 2 ∷ 0 ∷ [];
    current = 1;
    bootstrap_rsp = 0x100;
    reaper = none;
  };
  next_id = 3;
  counters = record Scheduler.new { threads_alive = 2; threads_spawned = 2 };
}

three-IsConsistent : IsConsistent three
three-IsConsistent = record {
  places = λ x. ground arith;
  single = λ x. ground arith;
  fresh = λ x h. ground arith;
  positive = omega arith;
  alive = refl;
}

-- A thread yields as often as its id says.
abbrev by_id : Yields
by_id id = id

abbrev rsp : ℕ → ℕ
rsp fuel = 0x4000 + fuel

drive-Finishes_example : Finishes (drive rsp 11 by_id three)
drive-Finishes_example = drive-Finishes rsp 11 by_id three three-IsConsistent (omega arith)

abbrev boot : Threads
boot = record {
  sched = record { threads = []; ready = []; current = 0; bootstrap_rsp = 0; reaper = none };
  next_id = 1;
  counters = Scheduler.new;
}

boot-IsQuiet : IsQuiet boot
boot-IsQuiet = record {
  consistent = record {
    places = λ x. refl;
    single = λ x. ground arith;
    fresh = λ x h. refl;
    positive = omega arith;
    alive = refl;
  };
  bootstrap = refl;
  no_ready = refl;
  no_threads = refl;
}

abbrev stack_a : Spawned
stack_a = record { stack = 0x4000; rsp = 0x7fc8 }

abbrev stack_b : Spawned
stack_b = record { stack = 0x8000; rsp = 0xbfc8 }
