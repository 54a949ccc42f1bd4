-- ===== src/Task/Executor/Tests.antt =====
-- src/task/executor.rs with tasks that yield a number of times, and count their polls in the world.
use apogee.Base.{
  ℕ, zero, suc, ◌+◌, ◌≤◌, ◌≡◌, ◌≢◌, refl, [], ◌∷◌, Option, none, some, true, false, length, arith,
}
use apogee.Base.Maps.{lookup}
use apogee.Scheduler
use apogee.Keyboard.ListQueue.{Fifo, list_crates}
use apogee.Task.{Futures, Polled, Task}
use apogee.Task.Executor.{State, drained, run_ready_tasks}
use apogee.Task.Executor.Drain.{Finite}
use apogee.Task.Executor.Consistent.{IsTidy}
use apogee.Task.Executor.Waits.{NewWait, NoOne}
use apogee.Task.Executor.Run.{run_ready_tasks_lem}
use apogee.Task.Executor.Complete.{AllQueued, Yields, run_ready_tasks-completes}
use apogee.Task.Executor.Sleep.{
  Processor, Runs, start, then_step, disable_interrupts, enable_and_hlt, disable, is_empty, halt,
  polling, disabled, found_empty, halted, Runs-Idle,
}

abbrev count_down : ℕ → ℕ → ℕ → Polled ℕ ℕ
count_down zero waker w = record { left = none; world = suc w; wakes = [] }
count_down (suc n) waker w = record { left = some n; world = suc w; wakes = waker ∷ [] }

abbrev yielding : Futures
yielding = record { Future = ℕ; World = ℕ; poll = count_down }

abbrev left_work : Option ℕ → ℕ
left_work none = 0
left_work (some n) = n

count_down-spends :
    (n waker w : ℕ)
    → length (count_down n waker w).wakes + left_work (count_down n waker w).left ≤ n
count_down-spends zero waker w = omega arith
count_down-spends (suc n) waker w = omega arith

abbrev yielding_finite : Finite yielding
yielding_finite = record {
  work = λ n. n;
  left_work = left_work;
  left_none = refl;
  left_some = λ n. refl;
  spends = count_down-spends;
}

yielding_yields : Yields yielding
yielding_yields zero waker w h = absurd (h refl)
yielding_yields (suc n) waker w h = ground arith

abbrev first : Task yielding
first = record { id = 7; future = 2 }

abbrev second : Task yielding
second = record { id = 9; future = 1 }

abbrev state : State list_crates yielding
state = record {
  executor = record {
    tasks = (7, first) ∷ [];
    task_queue = record { items = 7 ∷ []; room = 100 };
    waker_cache = [];
    started_tasks = [];
  };
  counters = record Scheduler.new { tasks_alive = 1; tasks_spawned = 1 };
  world = 0;
}

state-IsTidy : IsTidy state
unfolding lookup
state-IsTidy = record {
  single = λ x. ground arith;
  one_waker = λ x. omega arith;
  one_start = λ x. omega arith;
  named = λ x t h. ground arith;
  own = λ x w h. absurd (ground arith);
  cached = λ x h. refl;
  begun = λ x h. refl;
  alive = refl;
}

state-AllQueued : AllQueued NoOne state
unfolding lookup
state-AllQueued x t h = ground arith

state-NewWait : NewWait NoOne state
unfolding lookup
state-NewWait x t h new = ground arith

run_ready_tasks_lem_example :
    (u : State list_crates yielding) × (run_ready_tasks list_crates yielding 4 state ≡ drained u)
    × (u.executor.task_queue.items ≡ [])
    × ((x : ℕ) (t : Task yielding)
        → lookup x u.executor.tasks ≡ some t
        → lookup x u.executor.started_tasks ≢ none)
    × IsTidy u
run_ready_tasks_lem_example =
    run_ready_tasks_lem list_crates yielding yielding_finite 4 state (omega arith) (omega arith)
      state-IsTidy state-NewWait

run_ready_tasks-completes_example :
    (u : State list_crates yielding) × (run_ready_tasks list_crates yielding 4 state ≡ drained u)
    × ((x : ℕ) → lookup x u.executor.tasks ≡ none)
    × IsTidy u
run_ready_tasks-completes_example =
    run_ready_tasks-completes list_crates yielding yielding_yields yielding_finite 4 state
      (omega arith) (omega arith) state-IsTidy state-AllQueued

abbrev nothing_ready : Fifo
nothing_ready = record { items = []; room = 100 }

abbrev before : Processor list_crates
before = record { place = polling; interrupts = true; queue = nothing_ready }

abbrev between : Processor list_crates
between = record { place = disabled; interrupts = false; queue = nothing_ready }

abbrev tested : Processor list_crates
tested = record between { place = found_empty }

abbrev asleep : Processor list_crates
asleep = record { place = halted; interrupts = true; queue = nothing_ready }

asleep-Runs : Runs before asleep
unfolding disable_interrupts enable_and_hlt
asleep-Runs =
    then_step before tested asleep
      (then_step before between tested
        (then_step before before between (start before) (disable before refl))
        (is_empty between refl refl))
      (halt tested refl)

Runs-Idle_example : asleep.queue.items ≡ []
Runs-Idle_example = Runs-Idle before asleep refl asleep-Runs refl
