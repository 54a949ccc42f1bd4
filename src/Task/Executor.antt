-- ===== src/Task/Executor.antt =====
-- src/task/executor.rs: the cooperative executor. Its queue is the `ArrayQueue` of
-- src/task/keyboard.rs. Logging is left out.
pub mod Drain
pub mod Consistent
pub mod Waits
pub mod Loop
pub mod Run
pub mod Complete
pub mod Sleep
mod Tests
use apogee.Base.{ℕ, zero, suc, List, [], ◌∷◌, Bool, true, false, Option, none, some, length}
use apogee.Base.Maps.{lookup, insert, remove}
use apogee.Scheduler.{Scheduler, note_task_spawned, note_task_completed}
use apogee.Keyboard.{Crates}
use apogee.Task
use apogee.Task.{Futures, Polled, Task}

abbrev pub task_queue_capacity : ℕ
task_queue_capacity = 100

-- The queue that a waker holds is the executor's.
pub record TaskWaker : Type 0 where
  pub task_id : ℕ

pub record CoopExecutor (c : Crates) (fs : Futures) : Type 0 where
  pub tasks : List (ℕ × Task fs)
  pub task_queue : c.Queue
  pub waker_cache : List (ℕ × TaskWaker)
  pub started_tasks : List (ℕ × Unit {0})

-- The executor, with the counters of src/scheduler.rs and the world that its futures share.
pub record State (c : Crates) (fs : Futures) : Type 0 where
  pub executor : CoopExecutor c fs
  pub counters : Scheduler
  pub world : fs.World

-- How `run_ready_tasks` ends; the model also runs out of fuel.
pub data Drained (c : Crates) (fs : Futures) : Type 0 where
  drained : State c fs → Drained c fs
  panicked : Drained c fs
  out_of_fuel : Drained c fs

-- `waker_cache.entry(task_id).or_insert_with(…)`
unfoldable pub cached_waker : List (ℕ × TaskWaker) → ℕ → List (ℕ × TaskWaker) × TaskWaker
cached_waker cache task_id = elim (lookup task_id cache) [
  | some waker ↦ (cache, waker)
  | none ↦ (insert task_id (record { task_id = task_id }) cache, record { task_id = task_id })
]

module _ (c : Crates) where
  -- `TaskWaker::wake_task`; no result is the panic on a full queue.
  unfoldable pub wake_task : c.Queue → TaskWaker → Option c.Queue
  wake_task queue waker = c.push queue waker.task_id

  -- The wakers that a poll wakes, one after the other.
  unfoldable pub wake_all : c.Queue → List ℕ → Option c.Queue
  wake_all queue [] = some queue
  wake_all queue (id ∷ ids) = elim (wake_task queue (record { task_id = id })) [
    | none ↦ none
    | some woken ↦ wake_all woken ids
  ]

module _ (c : Crates) (fs : Futures) where
  abbrev pub new : CoopExecutor c fs
  new = record {
    tasks = [];
    task_queue = c.new_queue task_queue_capacity;
    waker_cache = [];
    started_tasks = [];
  }

  -- No result is a panic: the id is taken, or the queue is full.
  unfoldable pub spawn : State c fs → Task fs → Option (State c fs)
  spawn s task =
      let e = s.executor in
      elim (lookup task.id e.tasks) [
        | some old ↦ none
        | none ↦ elim (c.push e.task_queue task.id) [
          | none ↦ none
          | some queue ↦ some (record s {
            executor = record e { tasks = insert task.id task e.tasks; task_queue = queue };
            counters = note_task_spawned s.counters;
          })
        ]
      ]

  abbrev pub task_count : CoopExecutor c fs → ℕ
  task_count e = length e.tasks

  unfoldable pub complete : State c fs → ℕ → State c fs
  complete s task_id =
      let e = s.executor in
      record s {
        executor = record e {
          tasks = remove task_id e.tasks;
          waker_cache = remove task_id e.waker_cache;
          started_tasks = remove task_id e.started_tasks;
        };
        counters = note_task_completed s.counters;
      }

  -- The match on the result of `task.poll`, which mutated the future in place if it is pending.
  unfoldable pub after_poll : State c fs → ℕ → Task fs → Option fs.Future → State c fs
  after_poll s task_id task none = complete s task_id
  after_poll s task_id task (some future) =
      let polled : Task fs = record task { future = future } in
      record s { executor = record s.executor { tasks = insert task_id polled s.executor.tasks } }

  -- The state in which a poll leaves the executor, with the queue as its wakes leave it.
  abbrev pub polled_state : State c fs → ℕ → c.Queue → fs.World → State c fs
  polled_state s task_id queue world =
      let e = s.executor in
      record s {
        executor = record e {
          task_queue = queue;
          waker_cache = (cached_waker e.waker_cache task_id).0;
          started_tasks = insert task_id tt e.started_tasks;
        };
        world = world;
      }

  -- What the loop does with a task that it found under the popped id.
  unfoldable pub poll_task : State c fs → ℕ → Task fs → Option (State c fs)
  poll_task s task_id task =
      let waker : TaskWaker = (cached_waker s.executor.waker_cache task_id).1 in
      let polled : Polled fs.Future fs.World = Task.poll fs task waker.task_id s.world in
      elim (wake_all c s.executor.task_queue polled.wakes) [
        | none ↦ none
        | some queue ↦
            some (after_poll (polled_state s task_id queue polled.world) task_id task polled.left)
      ]

  unfoldable pub run_ready_tasks : ℕ → State c fs → Drained c fs
  run_ready_tasks zero s = out_of_fuel
  run_ready_tasks (suc fuel) s = elim (c.pop s.executor.task_queue) [
    | none ↦ drained s
    | some (queue, task_id) ↦
        let popped : State c fs = record s {
          executor = record s.executor { task_queue = queue };
        } in
        elim (lookup task_id s.executor.tasks) [
          | none ↦ run_ready_tasks fuel popped
          | some task ↦ elim (poll_task popped task_id task) [
            | none ↦ panicked
            | some after ↦ run_ready_tasks fuel after
          ]
        ]
  ]
