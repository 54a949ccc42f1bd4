-- ===== src/Task/Executor/Complete.antt =====
-- Tasks that wake themselves, in src/task/executor.rs.
use apogee.Base.{
  ℕ, ◌<◌, ◌≡◌, ◌≢◌, ◌⊎◌, inl, inr, List, ◌++◌, Option, none, some, Option-cases, subst, arith,
}
use apogee.Base.Maps.{lookup, count, count-append, lookup-insert, lookup-remove}
use apogee.Keyboard.{Crates}
use apogee.Task
use apogee.Task.{Futures, Polled, Task}
use apogee.Task.Executor.{
  State, TaskWaker, wake_all, cached_waker, complete, after_poll, polled_state, poll_task, drained,
  run_ready_tasks,
}
use apogee.Task.Executor.Drain.{Finite, potential, Fits, run_ready_tasks-drained}
use apogee.Task.Executor.Consistent.{IsTidy, popped-IsTidy, cached_waker-own}
use apogee.Task.Executor.Loop.{popped, run_ready_tasks-induction}
use apogee.Task.Executor.Waits.{NoOne, wake_all-contents, poll_task-IsTidy}

-- A future that is not done wakes itself, as one that only yields does.
abbrev pub Yields : Futures → Type 0
Yields fs =
    (f : fs.Future) (waker : ℕ) (w : fs.World)
    → (fs.poll f waker w).left ≢ none
    → 0 < count waker (fs.poll f waker w).wakes

-- Every task, but perhaps those excused, is queued.
abbrev pub AllQueued : {c : Crates} {fs : Futures} → (ℕ → Type 0) → State c fs → Type 0
AllQueued {c = c} {fs = fs} Excused s =
    (x : ℕ) (t : Task fs)
    → lookup x s.executor.tasks ≡ some t
    → Excused x ⊎ (0 < count x (c.contents s.executor.task_queue))

module _ {c : Crates} {fs : Futures} (yields : Yields fs) (s : State c fs) (id : ℕ) (task : Task fs)
    (v : IsTidy s) (found : lookup id s.executor.tasks ≡ some task) where
  after_poll-AllQueued :
      (left : Option fs.Future) (q : c.Queue) (world : fs.World) (ids : List ℕ)
      → c.contents q ≡ c.contents s.executor.task_queue ++ ids
      → (left ≢ none → 0 < count id ids)
      → AllQueued (λ x. x ≡ id) s
      → AllQueued NoOne (after_poll c fs (polled_state c fs s id q world) id task left)
  unfolding after_poll complete
  after_poll-AllQueued none q world ids back woken h x t there = ground (
    arith,
    back,
    count-append x (c.contents s.executor.task_queue) ids,
    lookup-remove id x s.executor.tasks v.single,
    h x t,
  )
  after_poll-AllQueued (some f) q world ids back woken h x t there = ground (
    arith,
    back,
    woken (λ e. absurd (ground arith)),
    count-append x (c.contents s.executor.task_queue) ids,
    lookup-insert id x (record task { future = f }) s.executor.tasks,
    h x t,
  )

  poll_task-AllQueued :
      (u : State c fs)
      → AllQueued (λ x. x ≡ id) s
      → poll_task c fs s id task ≡ some u
      → AllQueued NoOne u
  unfolding poll_task Task.poll
  poll_task-AllQueued u h out =
      let e = s.executor in
      let waker : TaskWaker = (cached_waker e.waker_cache id).1 in
      let polled : Polled fs.Future fs.World = fs.poll task.future waker.task_id s.world in
      elim (Option-cases (wake_all c e.task_queue polled.wakes)) [
        | inl full ↦ absurd (ground arith)
        | inr (q, woken) ↦
            let back = wake_all-contents c e.task_queue q polled.wakes woken in
            let middle : State c fs = polled_state c fs s id q polled.world in
            let same : after_poll c fs middle id task polled.left ≡ u = ground arith in
            rw (← same) (
              after_poll-AllQueued polled.left q polled.world polled.wakes back
                (λ e.
                  subst (λ k. 0 < count k polled.wakes) (cached_waker-own s id task v found)
                    (yields task.future waker.task_id s.world e))
                h)
      ]

module _ (c : Crates) (fs : Futures) (yields : Yields fs) where
  run-AllQueued :
      (fuel : ℕ) (s u : State c fs)
      → run_ready_tasks c fs fuel s ≡ drained u
      → IsTidy s × AllQueued NoOne s
      → IsTidy u × AllQueued NoOne u
  run-AllQueued =
      run_ready_tasks-induction c fs (λ (s : State c fs). IsTidy s × AllQueued NoOne s)
        (λ s q id ids front rest (v, h) gone.
          (popped-IsTidy s q v, λ x t there. ground (arith, h x t there, front, rest)))
        λ s q id ids front rest (v, h) task found w polled.
          let tidy = popped-IsTidy s q v in
          let before : State c fs = popped c fs s q in
          (
            poll_task-IsTidy before id task tidy found w polled,
            poll_task-AllQueued yields before id task tidy found w
                (λ x t there. ground (arith, h x t there, front, rest)) polled,
          )

  -- For futures that wake themselves until they are done, and do so finitely often: on an orderly
  -- executor with every task queued, where the wakes to come fit in the queue, `run_ready_tasks`
  -- with fuel above their number completes every task, without a panic.
  pub run_ready_tasks-completes :
      (fin : Finite fs) (fuel : ℕ) (s : State c fs)
      → potential c fs fin s < fuel
      → Fits c fs fin s
      → IsTidy s
      → AllQueued NoOne s
      → (u : State c fs) × (run_ready_tasks c fs fuel s ≡ drained u)
        × ((x : ℕ) → lookup x u.executor.tasks ≡ none)
        × IsTidy u
  run_ready_tasks-completes fin fuel s h fits v queued =
      let (u, out, empty, _) = run_ready_tasks-drained c fs fin fuel s h fits in
      let (tidy, kept) = run-AllQueued fuel s u out (v, queued) in
      (
        u,
        out,
        λ x. elim (Option-cases (lookup x u.executor.tasks)) [
          | inl gone ↦ gone
          | inr (t, there) ↦ absurd (ground (arith, kept x t there, empty))
        ],
        tidy,
      )
