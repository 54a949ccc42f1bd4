-- ===== src/Task.antt =====
-- src/task/mod.rs: the tasks. A task's future is a parameter of the model: what a poll with the
-- waker of a task does to the world, which wakers it wakes, in order, and what is left of it.
pub mod Executor
use apogee.Base.{ℕ, List, Option, add64}

-- What a poll did; no future is left when it returned `Poll::Ready`.
pub record Polled (Future World : Type 0) : Type 0 where
  pub left : Option Future
  pub world : World
  pub wakes : List ℕ

-- The world is what the futures share.
pub record Futures : Type 1 where
  pub Future : Type 0
  pub World : Type 0
  -- The future, the task that its waker wakes, and the world.
  pub poll : Future → ℕ → World → Polled Future World

module _ (fs : Futures) where
  pub record Task : Type 0 where
    pub id : ℕ
    pub future : fs.Future

  -- `TaskId::new`, with the next id; the counter wraps.
  unfoldable pub new_id : ℕ → ℕ × ℕ
  unfolding add64
  new_id next_id = (next_id, add64 next_id 1)

  -- `Task::new`
  unfoldable pub new : ℕ → fs.Future → Task × ℕ
  new next_id future =
      let (id, next) = new_id next_id in (record { id = id; future = future }, next)

  unfoldable pub poll : Task → ℕ → fs.World → Polled fs.Future fs.World
  poll task waker world = fs.poll task.future waker world
