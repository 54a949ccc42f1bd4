-- ===== src/Task/Executor/Drain.antt =====
-- `run_ready_tasks` of src/task/executor.rs ends, for futures that wake finitely often.
use apogee.Base.{
  ℕ, zero, suc, ◌+◌, ◌≤◌, ◌<◌, ◌≡◌, refl, sym, ap, ◌∙◌, inl, inr, List, [], ◌∷◌, ◌++◌, Option, none,
  some, length, length-append, append_assoc, append-nil, Option-cases, List-cases, arith,
}
use apogee.Base.Maps.{lookup, total, total-insert_old, total-remove}
use apogee.Keyboard.{Crates}
use apogee.Task
use apogee.Task.{Futures, Polled, Task}
use apogee.Task.Executor.{
  State, drained, wake_task, wake_all, cached_waker, complete, after_poll, polled_state, poll_task,
  run_ready_tasks,
}

-- The wakes that a future still makes, whatever the world does: each poll spends those that it
-- makes.
pub record Finite (fs : Futures) : Type 0 where
  pub work : fs.Future → ℕ
  pub left_work : Option fs.Future → ℕ
  pub left_none : left_work none ≡ 0
  pub left_some : (f : fs.Future) → left_work (some f) ≡ work f
  pub spends :
      (f : fs.Future) (waker : ℕ) (w : fs.World)
      → length (fs.poll f waker w).wakes + left_work (fs.poll f waker w).left ≤ work f

module _ (c : Crates) where
  pub wake_all-some :
      (q : c.Queue) (ids : List ℕ)
      → length (c.contents q) + length ids ≤ c.capacity q
      → (r : c.Queue) × (wake_all c q ids ≡ some r)
        × (c.contents r ≡ c.contents q ++ ids)
        × (c.capacity r ≡ c.capacity q)
  unfolding wake_all wake_task
  wake_all-some q [] h = (q, refl, sym (append-nil (c.contents q)), refl)
  wake_all-some q (id ∷ ids) h =
      let (r, pushed, back, same) = c.push_back q id (omega arith) in
      let (s, out, all, kept) =
        wake_all-some r ids rw (back, same)
          (omega (arith, length-append (c.contents q) (id ∷ []))) in
      (
        s,
        rw (pushed, wake_all, wake_task) out,
        all ∙ rw back (append_assoc (c.contents q) (id ∷ []) ids),
        kept ∙ same,
      )

module _ (c : Crates) (fs : Futures) (fin : Finite fs) where
  abbrev weight : Task fs → ℕ
  weight task = fin.work task.future

  -- The ids in the queue and the wakes to come.
  abbrev pub potential : State c fs → ℕ
  potential s = length (c.contents s.executor.task_queue) + total weight s.executor.tasks

  -- The wakes to come still fit in the queue.
  abbrev pub Fits : State c fs → Type 0
  Fits s = potential s ≤ c.capacity s.executor.task_queue

  abbrev capacity : State c fs → ℕ
  capacity s = c.capacity s.executor.task_queue

  after_poll-potential :
      (s : State c fs) (id : ℕ) (task : Task fs) (left : Option fs.Future)
      → lookup id s.executor.tasks ≡ some task
      → (potential (after_poll c fs s id task left) + weight task
          ≡ potential s + fin.left_work left)
        × ((after_poll c fs s id task left).executor.task_queue ≡ s.executor.task_queue)
  unfolding after_poll complete
  after_poll-potential s id task none found =
      (omega (arith, total-remove weight id task s.executor.tasks found, fin.left_none), refl)
  after_poll-potential s id task (some f) found = (
    omega (
      arith,
      total-insert_old weight id (record task { future = f }) task s.executor.tasks found,
      fin.left_some f,
    ),
    refl,
  )

  poll_task-Fits :
      (s : State c fs) (id : ℕ) (task : Task fs)
      → lookup id s.executor.tasks ≡ some task
      → Fits s
      → (u : State c fs) × (poll_task c fs s id task ≡ some u)
        × (potential u ≤ potential s)
        × (capacity u ≡ capacity s)
  unfolding poll_task Task.poll
  poll_task-Fits s id task found h =
      let e = s.executor in
      let waker : ℕ = (cached_waker e.waker_cache id).1.task_id in
      let polled : Polled fs.Future fs.World = fs.poll task.future waker s.world in
      let spent = fin.spends task.future waker s.world in
      let before = total-remove weight id task e.tasks found in
      let (q, woken, back, same) =
        wake_all-some c e.task_queue polled.wakes (omega (arith, spent, before, h)) in
      let middle : State c fs = polled_state c fs s id q polled.world in
      let (changed, queue) = after_poll-potential middle id task polled.left found in
      let longer : length (c.contents q) ≡ length (c.contents e.task_queue) + length polled.wakes =
        ap length back ∙ length-append (c.contents e.task_queue) polled.wakes in
      (
        after_poll c fs middle id task polled.left,
        rw (woken, poll_task) refl,
        omega (arith, spent, longer, changed),
        ap c.capacity queue ∙ same,
      )

  -- For futures that wake finitely often: if the wakes to come fit in the queue, `run_ready_tasks`
  -- ends without a panic, with an empty queue.
  pub run_ready_tasks-drained :
      (fuel : ℕ) (s : State c fs)
      → potential s < fuel
      → Fits s
      → (u : State c fs) × (run_ready_tasks c fs fuel s ≡ drained u)
        × (c.contents u.executor.task_queue ≡ [])
        × (potential u ≤ potential s)
  unfolding run_ready_tasks
  run_ready_tasks-drained zero s h fits = absurd (omega arith)
  run_ready_tasks-drained (suc fuel) s h fits =
      elim (List-cases (c.contents s.executor.task_queue)) [
        | inl empty ↦
            let nothing = c.pop_empty s.executor.task_queue empty in
            (s, rw (nothing, run_ready_tasks) refl, empty, omega arith)
        | inr (id, ids, front) ↦
            let (q, pop, rest, same) = c.pop_front s.executor.task_queue id ids front in
            let popped : State c fs = record s {
              executor = record s.executor { task_queue = q };
            } in
            let shorter : suc (length (c.contents q)) ≡ length (c.contents s.executor.task_queue) =
              ap (λ (xs : List ℕ). suc (length xs)) rest ∙ sym (ap length front) in
            elim (Option-cases (lookup id s.executor.tasks)) [
              | inl gone ↦
                  let (u, out, empty, less) =
                    run_ready_tasks-drained fuel popped (omega (arith, shorter))
                      (omega (arith, shorter, same)) in
                  (u, rw (pop, run_ready_tasks, gone) out, empty, omega (arith, less, shorter))
              | inr (task, found) ↦
                  let (v, polled, spent, kept) =
                    poll_task-Fits popped id task found (omega (arith, shorter, same)) in
                  let (u, out, empty, less) =
                    run_ready_tasks-drained fuel v (omega (arith, shorter, spent))
                      (omega (arith, shorter, spent, kept, same)) in
                  (
                    u,
                    rw (pop, run_ready_tasks, found, polled) out,
                    empty,
                    omega (arith, less, spent, shorter),
                  )
            ]
      ]
