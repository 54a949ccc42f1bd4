-- ===== src/Task/Executor/Consistent.antt =====
-- The invariant of the executor of src/task/executor.rs.
use apogee.Base.{
  ℕ, ◌%◌, ◌<◌, ◌≡◌, refl, inl, inr, List, Option, none, some, length, word, sub64, Option-cases,
  arith,
}
use apogee.Base.Maps.{
  lookup, keys, count, count-keys, IsMap, insert-IsMap, remove-IsMap, lookup-insert, lookup-remove,
  length-insert_old, length-remove,
}
use apogee.Scheduler.{note_task_completed}
use apogee.Keyboard.{Crates}
use apogee.Task.{Futures, Task}
use apogee.Task.Executor.{State, TaskWaker, cached_waker, complete, after_poll, polled_state}

-- Tasks stand under their own ids, wakers wake the task that they are cached for, nothing is kept of
-- a task that is gone, and the live counter is the number of tasks.
pub record IsTidy {c : Crates} {fs : Futures} (s : State c fs) : Type 0 where
  pub single : IsMap s.executor.tasks
  pub one_waker : IsMap s.executor.waker_cache
  pub one_start : IsMap s.executor.started_tasks
  pub named : (x : ℕ) (t : Task fs) → lookup x s.executor.tasks ≡ some t → t.id ≡ x
  pub own : (x : ℕ) (w : TaskWaker) → lookup x s.executor.waker_cache ≡ some w → w.task_id ≡ x
  pub cached : (x : ℕ) → lookup x s.executor.tasks ≡ none → lookup x s.executor.waker_cache ≡ none
  pub begun : (x : ℕ) → lookup x s.executor.tasks ≡ none → lookup x s.executor.started_tasks ≡ none
  pub alive : s.counters.tasks_alive ≡ length s.executor.tasks % word

module _ {c : Crates} {fs : Futures} (s : State c fs) (id : ℕ) (task : Task fs) (v : IsTidy s)
    (found : lookup id s.executor.tasks ≡ some task) where
  abbrev cache : List (ℕ × TaskWaker)
  cache = s.executor.waker_cache

  abbrev fresh_waker : TaskWaker
  fresh_waker = record { task_id = id }

  present : 0 < count id (keys s.executor.tasks)
  present = count-keys id task s.executor.tasks found

  cached_waker-IsMap : IsMap (cached_waker cache id).0
  unfolding cached_waker
  cached_waker-IsMap = elim (Option-cases (lookup id cache)) [
    | inl missing ↦ rw (missing, cached_waker) (insert-IsMap id fresh_waker cache v.one_waker)
    | inr (w, here) ↦ rw (here, cached_waker) v.one_waker
  ]

  cached_waker-named :
      (x : ℕ) (w : TaskWaker) → lookup x (cached_waker cache id).0 ≡ some w → w.task_id ≡ x
  unfolding cached_waker
  cached_waker-named x w h = elim (Option-cases (lookup id cache)) [
    | inl missing ↦ ground (arith, missing, lookup-insert id x fresh_waker cache, v.own x w)
    | inr (u, here) ↦ ground (arith, here, v.own x w)
  ]

  cached_waker-none :
      (x : ℕ) → lookup x s.executor.tasks ≡ none → lookup x (cached_waker cache id).0 ≡ none
  unfolding cached_waker
  cached_waker-none x h = elim (Option-cases (lookup id cache)) [
    | inl missing ↦
        ground (arith, missing, found, lookup-insert id x fresh_waker cache, v.cached x h)
    | inr (u, here) ↦ ground (arith, here, v.cached x h)
  ]

  pub cached_waker-own : (cached_waker s.executor.waker_cache id).1.task_id ≡ id
  unfolding cached_waker
  cached_waker-own = elim (Option-cases (lookup id s.executor.waker_cache)) [
    | inl missing ↦ rw (missing, cached_waker) refl
    | inr (w, here) ↦ rw (here, cached_waker) (v.own id w here)
  ]

  pub polled_state-IsTidy :
      (q : c.Queue) (world : fs.World) → IsTidy (polled_state c fs s id q world)
  unfolding cached_waker
  polled_state-IsTidy q world = record {
    single = v.single;
    one_waker = cached_waker-IsMap;
    one_start = insert-IsMap id tt s.executor.started_tasks v.one_start;
    named = v.named;
    own = cached_waker-named;
    cached = cached_waker-none;
    begun =
        λ x gone. ground (arith, lookup-insert id x tt s.executor.started_tasks, v.begun x gone);
    alive = v.alive;
  }

  complete-IsTidy : IsTidy (complete c fs s id)
  unfolding complete note_task_completed sub64
  complete-IsTidy = record {
    single = remove-IsMap id s.executor.tasks v.single;
    one_waker = remove-IsMap id s.executor.waker_cache v.one_waker;
    one_start = remove-IsMap id s.executor.started_tasks v.one_start;
    named = λ x t h. ground (arith, lookup-remove id x s.executor.tasks v.single, v.named x t);
    own = λ x w h. ground (arith, lookup-remove id x s.executor.waker_cache v.one_waker, v.own x w);
    cached = λ x h. ground (
      arith,
      lookup-remove id x s.executor.tasks v.single,
      lookup-remove id x s.executor.waker_cache v.one_waker,
      v.cached x,
    );
    begun = λ x h. ground (
      arith,
      lookup-remove id x s.executor.tasks v.single,
      lookup-remove id x s.executor.started_tasks v.one_start,
      v.begun x,
    );
    alive = ground (arith, v.alive, length-remove id s.executor.tasks present);
  }

  pending-IsTidy : (f : fs.Future) → IsTidy (after_poll c fs s id task (some f))
  unfolding after_poll
  pending-IsTidy f =
      let new : Task fs = record task { future = f } in
      record {
        single = insert-IsMap id new s.executor.tasks v.single;
        one_waker = v.one_waker;
        one_start = v.one_start;
        named = λ x t h.
            ground
              (arith, lookup-insert id x new s.executor.tasks, v.named x t, v.named id task found);
        own = v.own;
        cached = λ x h. ground (arith, lookup-insert id x new s.executor.tasks, v.cached x);
        begun = λ x h. ground (arith, lookup-insert id x new s.executor.tasks, v.begun x);
        alive = ground (arith, v.alive, length-insert_old id new s.executor.tasks present);
      }

  pub after_poll-IsTidy : (left : Option fs.Future) → IsTidy (after_poll c fs s id task left)
  unfolding after_poll
  after_poll-IsTidy none = complete-IsTidy
  after_poll-IsTidy (some f) = pending-IsTidy f

-- What moves only the queue keeps it.
pub popped-IsTidy :
    {c : Crates} {fs : Futures} (s : State c fs) (q : c.Queue)
    → IsTidy s
    → IsTidy (record s { executor = record s.executor { task_queue = q } })
popped-IsTidy s q v = record {
  single = v.single;
  one_waker = v.one_waker;
  one_start = v.one_start;
  named = v.named;
  own = v.own;
  cached = v.cached;
  begun = v.begun;
  alive = v.alive;
}
