-- ===== src/Task/Executor/Loop.antt =====
-- What the loop of `run_ready_tasks` in src/task/executor.rs keeps.
use apogee.Base.{
  ℕ, zero, suc, ◌≡◌, inl, inr, List, ◌∷◌, none, some, Option-cases, List-cases, subst, arith,
}
use apogee.Base.Maps.{lookup}
use apogee.Keyboard.{Crates}
use apogee.Task.{Futures, Task}
use apogee.Task.Executor.{State, drained, poll_task, run_ready_tasks}

module _ (c : Crates) (fs : Futures) where
  abbrev pub popped : State c fs → c.Queue → State c fs
  popped s q = record s { executor = record s.executor { task_queue = q } }

  -- A property that each turn of the loop keeps holds at the end.
  pub run_ready_tasks-induction {ℓ} :
      (P : State c fs → Type ℓ)
      → ((s : State c fs) (q : c.Queue) (id : ℕ) (ids : List ℕ)
          → c.contents s.executor.task_queue ≡ id ∷ ids
          → c.contents q ≡ ids
          → P s
          → lookup id s.executor.tasks ≡ none
          → P (popped s q))
      → ((s : State c fs) (q : c.Queue) (id : ℕ) (ids : List ℕ)
          → c.contents s.executor.task_queue ≡ id ∷ ids
          → c.contents q ≡ ids
          → P s
          → (task : Task fs) → lookup id s.executor.tasks ≡ some task
          → (w : State c fs) → poll_task c fs (popped s q) id task ≡ some w
          → P w)
      → (fuel : ℕ) (s u : State c fs) → run_ready_tasks c fs fuel s ≡ drained u
      → P s
      → P u
  unfolding run_ready_tasks
  run_ready_tasks-induction P skips polls zero s u out v = absurd (ground arith)
  run_ready_tasks-induction P skips polls (suc fuel) s u out v =
      elim (List-cases (c.contents s.executor.task_queue)) [
        | inl empty ↦
            let nothing = c.pop_empty s.executor.task_queue empty in
            let same : s ≡ u = ground arith in subst P same v
        | inr (id, ids, front) ↦
            let (q, pop, rest, _) = c.pop_front s.executor.task_queue id ids front in
            elim (Option-cases (lookup id s.executor.tasks)) [
              | inl gone ↦
                  run_ready_tasks-induction P skips polls fuel (popped s q) u
                    (rw (pop, run_ready_tasks, gone) at out) (skips s q id ids front rest v gone)
              | inr (task, found) ↦ elim (Option-cases (poll_task c fs (popped s q) id task)) [
                | inl full ↦ absurd (ground arith)
                | inr (w, polled) ↦
                    run_ready_tasks-induction P skips polls fuel w u
                      (rw (pop, run_ready_tasks, found, polled) at out)
                      (polls s q id ids front rest v task found w polled)
              ]
            ]
      ]
