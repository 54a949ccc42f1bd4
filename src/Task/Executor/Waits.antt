-- ===== src/Task/Executor/Waits.antt =====
-- That the queue of src/task/executor.rs holds every task that is yet to be polled.
use apogee.Base.{
  ℕ, ◌<◌, ◌≡◌, ◌≢◌, ◌⊎◌, inl, inr, List, [], ◌∷◌, ◌++◌, Option, none, some, length, append-nil,
  append_assoc, Option-cases, sym, ◌∙◌, arith,
}
use apogee.Base.Maps.{lookup, insert, count, count-append, lookup-insert, lookup-remove}
use native.Mathlib.Decide.{dec_lt}
use apogee.Keyboard.{Crates}
use apogee.Task
use apogee.Task.{Futures, Polled, Task}
use apogee.Task.Executor.{
  State, TaskWaker, wake_task, wake_all, cached_waker, complete, after_poll, polled_state,
  poll_task,
}
use apogee.Task.Executor.Consistent.{IsTidy, after_poll-IsTidy, polled_state-IsTidy}

module _ (c : Crates) where
  push-some : (q r : c.Queue) (x : ℕ) → c.push q x ≡ some r → c.contents r ≡ c.contents q ++ x ∷ []
  push-some q r x h = elim (dec_lt (length (c.contents q)) (c.capacity q)) [
    | yes room ↦
        let (s, pushed, back, _) = c.push_back q x room in
        let same : s ≡ r = ground (arith, pushed) in rw (← same) back
    | no full ↦ absurd (ground (arith, c.push_full q x (omega arith)))
  ]

  pub wake_all-contents :
      (q r : c.Queue) (ids : List ℕ)
      → wake_all c q ids ≡ some r
      → c.contents r ≡ c.contents q ++ ids
  unfolding wake_all wake_task
  wake_all-contents q r [] h =
      let same : q ≡ r = ground arith in rw (← same) (sym (append-nil (c.contents q)))
  wake_all-contents q r (id ∷ ids) h = elim (Option-cases (c.push q id)) [
    | inl full ↦ absurd (ground arith)
    | inr (s, pushed) ↦
        wake_all-contents s r ids (rw (pushed, wake_all, wake_task) at h)
        ∙ rw (push-some q s id pushed) (append_assoc (c.contents q) (id ∷ []) ids)
  ]

-- Every task that was never polled, but perhaps one, waits in the queue.
abbrev pub NewWait : {c : Crates} {fs : Futures} → (ℕ → Type 0) → State c fs → Type 0
NewWait {c = c} {fs = fs} Excused s =
    (x : ℕ) (t : Task fs)
    → lookup x s.executor.tasks ≡ some t
    → lookup x s.executor.started_tasks ≡ none
    → Excused x ⊎ (0 < count x (c.contents s.executor.task_queue))

abbrev pub NoOne : ℕ → Type 0
NoOne x = ⊥

module _ {c : Crates} {fs : Futures} (s : State c fs) (id : ℕ) (task : Task fs) (v : IsTidy s)
    (found : lookup id s.executor.tasks ≡ some task) where
  polled_state-NewWait :
      (q : c.Queue) (world : fs.World) (ids : List ℕ)
      → c.contents q ≡ c.contents s.executor.task_queue ++ ids
      → NewWait (λ x. x ≡ id) s
      → NewWait NoOne (polled_state c fs s id q world)
  polled_state-NewWait q world ids back h x t there new = ground (
    arith,
    back,
    count-append x (c.contents s.executor.task_queue) ids,
    lookup-insert id x tt s.executor.started_tasks,
    h x t there,
  )

  after_poll-NewWait :
      (left : Option fs.Future)
      → NewWait NoOne s
      → lookup id s.executor.started_tasks ≢ none
      → NewWait NoOne (after_poll c fs s id task left)
  unfolding after_poll complete
  after_poll-NewWait none h begun x t there new = ground (
    arith,
    lookup-remove id x s.executor.tasks v.single,
    lookup-remove id x s.executor.started_tasks v.one_start,
    h x t,
  )
  after_poll-NewWait (some f) h begun x t there new =
      ground (arith, lookup-insert id x (record task { future = f }) s.executor.tasks, h x t)

module _ {c : Crates} {fs : Futures} (s : State c fs) (id : ℕ) (task : Task fs) (v : IsTidy s)
    (found : lookup id s.executor.tasks ≡ some task) where
  -- How a poll that does not panic ends.
  poll_task-some :
      (u : State c fs)
      → poll_task c fs s id task ≡ some u
      → (q : c.Queue) × (polled : Polled fs.Future fs.World) × (c.contents q
          ≡ c.contents s.executor.task_queue ++ polled.wakes)
        × (after_poll c fs (polled_state c fs s id q polled.world) id task polled.left ≡ u)
  unfolding poll_task
  poll_task-some u out =
      let e = s.executor in
      let waker : TaskWaker = (cached_waker e.waker_cache id).1 in
      let polled : Polled fs.Future fs.World = Task.poll fs task waker.task_id s.world in
      elim (Option-cases (wake_all c e.task_queue polled.wakes)) [
        | inl full ↦ absurd (ground arith)
        | inr (q, woken) ↦
            (q, polled, wake_all-contents c e.task_queue q polled.wakes woken, ground arith)
      ]

  pub poll_task-IsTidy : (u : State c fs) → poll_task c fs s id task ≡ some u → IsTidy u
  poll_task-IsTidy u out =
      let (q, polled, _, same) = poll_task-some u out in
      let middle : State c fs = polled_state c fs s id q polled.world in
      rw (← same) (
        after_poll-IsTidy middle id task (polled_state-IsTidy s id task v found q polled.world)
          found polled.left)

  started : (m : List (ℕ × Unit {0})) → lookup id (insert id tt m) ≢ none
  started m h = ground (arith, lookup-insert id id tt m)

  pub poll_task-NewWait :
      (u : State c fs)
      → NewWait (λ x. x ≡ id) s
      → poll_task c fs s id task ≡ some u
      → NewWait NoOne u
  poll_task-NewWait u h out =
      let (q, polled, back, same) = poll_task-some u out in
      let middle : State c fs = polled_state c fs s id q polled.world in
      rw (← same) (
        after_poll-NewWait middle id task (polled_state-IsTidy s id task v found q polled.world)
          found polled.left
          (polled_state-NewWait s id task v found q polled.world polled.wakes back h)
          (started s.executor.started_tasks))
