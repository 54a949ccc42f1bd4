-- ===== src/Task/Executor/Run.antt =====
-- `run_ready_tasks` and `spawn` of src/task/executor.rs on an orderly executor.
use apogee.Base.{
  ℕ, ◌≤◌, ◌<◌, ◌≡◌, ◌≢◌, ◌↔◌, ◌⊎◌, add64, refl, inl, inr, [], ◌∷◌, ◌++◌, none, some, length,
  Option-cases, arith,
}
use apogee.Base.Maps.{
  lookup, insert, keys, count, lookup-some, count-append, lookup-insert, insert-IsMap,
  length-insert_new,
}
use apogee.Scheduler.{note_task_spawned}
use native.Mathlib.Decide.{dec_lt}
use apogee.Keyboard.{Crates}
use apogee.Task.{Futures, Task}
use apogee.Task.Executor.{State, drained, run_ready_tasks, spawn}
use apogee.Task.Executor.Drain.{Finite, potential, Fits, run_ready_tasks-drained}
use apogee.Task.Executor.Consistent.{IsTidy, popped-IsTidy}
use apogee.Task.Executor.Loop.{popped, run_ready_tasks-induction}
use apogee.Task.Executor.Waits.{NewWait, NoOne, poll_task-IsTidy, poll_task-NewWait}

module _ (c : Crates) (fs : Futures) where
  run-keeps :
      (fuel : ℕ) (s u : State c fs)
      → run_ready_tasks c fs fuel s ≡ drained u
      → IsTidy s × NewWait NoOne s
      → IsTidy u × NewWait NoOne u
  run-keeps =
      run_ready_tasks-induction c fs (λ (s : State c fs). IsTidy s × NewWait NoOne s)
        (λ s q id ids front rest (v, h) gone.
          (popped-IsTidy s q v, λ x t there new. ground (arith, h x t there new, front, rest)))
        λ s q id ids front rest (v, h) task found w polled.
          let tidy = popped-IsTidy s q v in
          let before : State c fs = popped c fs s q in
          (
            poll_task-IsTidy before id task tidy found w polled,
            poll_task-NewWait before id task tidy found w
                (λ x t there new. ground (arith, h x t there new, front, rest)) polled,
          )

  -- For futures whose polls wake finitely often, on an orderly executor where the wakes to come fit
  -- in the queue and every task that was never polled is queued: with fuel above their number
  -- `run_ready_tasks` ends without a panic. The queue is then empty, every task that is left
  -- was polled, and the executor is orderly: wakers, start marks and the counter of live tasks
  -- are those of the tasks that are left.
  pub run_ready_tasks_lem :
      (fin : Finite fs) (fuel : ℕ) (s : State c fs)
      → potential c fs fin s < fuel
      → Fits c fs fin s
      → IsTidy s
      → NewWait NoOne s
      → (u : State c fs) × (run_ready_tasks c fs fuel s ≡ drained u)
        × (c.contents u.executor.task_queue ≡ [])
        × ((x : ℕ) (t : Task fs)
            → lookup x u.executor.tasks ≡ some t
            → lookup x u.executor.started_tasks ≢ none)
        × IsTidy u
  run_ready_tasks_lem fin fuel s h fits v wait =
      let (u, out, empty, _) = run_ready_tasks-drained c fs fin fuel s h fits in
      let (tidy, kept) = run-keeps fuel s u out (v, wait) in
      (u, out, empty, λ x t there new. ground (arith, kept x t there new, empty), tidy)

module _ (c : Crates) (fs : Futures) (s : State c fs) (task : Task fs) (v : IsTidy s)
    (wait : NewWait NoOne s) where
  -- A task with an id of its own joins an orderly executor whose queue has room, at the end of the
  -- queue; the executor stays orderly.
  pub spawn_lem :
      lookup task.id s.executor.tasks ≡ none
      → length (c.contents s.executor.task_queue) < c.capacity s.executor.task_queue
      → (u : State c fs) × (spawn c fs s task ≡ some u)
        × (c.contents u.executor.task_queue ≡ c.contents s.executor.task_queue ++ task.id ∷ [])
        × (lookup task.id u.executor.tasks ≡ some task)
        × IsTidy u
        × NewWait NoOne u
  unfolding spawn note_task_spawned add64
  spawn_lem new room =
      let e = s.executor in
      let (q, pushed, back, same) = c.push_back e.task_queue task.id room in
      let absent : count task.id (keys e.tasks) ≡ 0 =
        ground (arith, new, lookup-some task.id e.tasks) in
      let shown = λ (x : ℕ). lookup-insert task.id x task e.tasks in
      (
        record s {
          executor = record e { tasks = insert task.id task e.tasks; task_queue = q };
          counters = note_task_spawned s.counters;
        },
        rw (new, pushed, spawn) refl,
        back,
        ground (arith, shown task.id),
        record {
          single = insert-IsMap task.id task e.tasks v.single;
          one_waker = v.one_waker;
          one_start = v.one_start;
          named = λ x t there. ground (arith, shown x, v.named x t);
          own = v.own;
          cached = λ x gone. ground (arith, shown x, v.cached x);
          begun = λ x gone. ground (arith, shown x, v.begun x);
          alive = ground (arith, v.alive, length-insert_new task.id task e.tasks absent);
        },
        λ x t there not_begun. ground (
          arith,
          shown x,
          back,
          count-append x (c.contents e.task_queue) (task.id ∷ []),
          wait x t,
        ),
      )

module _ (c : Crates) (fs : Futures) (s : State c fs) (task : Task fs) where
  -- `spawn` panics exactly when the id is taken or the queue is full.
  spawn_panics : (spawn c fs s task ≡ none) ↔ (
      (lookup task.id s.executor.tasks ≢ none)
      ⊎ (c.capacity s.executor.task_queue ≤ length (c.contents s.executor.task_queue)))
  unfolding spawn
  spawn_panics =
      let e = s.executor in
      elim (Option-cases (lookup task.id e.tasks)) [
        | inr (old, taken) ↦ (λ _. inl (λ none_there. ground arith), λ _. rw (taken, spawn) refl)
        | inl new ↦ elim (dec_lt (length (c.contents e.task_queue)) (c.capacity e.task_queue)) [
          | yes room ↦
              let (q, pushed, _, _) = c.push_back e.task_queue task.id room in
              (λ none_out. absurd (ground (arith, pushed)), λ why. absurd (ground arith))
          | no full ↦
              let not_pushed = c.push_full e.task_queue task.id (omega arith) in
              (λ _. inr (omega arith), λ _. rw (new, not_pushed, spawn) refl)
        ]
      ]
