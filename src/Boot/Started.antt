-- ===== src/Boot/Started.antt =====
-- What a boot of src/main.rs leads to.
use apogee.Base.{
  suc, ◌+◌, ◌<◌, ◌≡◌, refl, ◌∙◌, ◌++◌, [], ◌∷◌, none, some, length, word, add64, add64-eq-add,
  arith,
}
use apogee.Base.Maps.{lookup, insert, lookup-none, lookup-insert}
use apogee.Scheduler.{note_task_spawned}
use apogee.Keyboard.{Crates}
use apogee.Task
use apogee.Task.{Futures, Task}
use apogee.Task.Executor
use apogee.Task.Executor.{State, task_queue_capacity, spawn}
use apogee.Paging.{Paging}
use apogee.Gdt.{Selectors}
use apogee.Userland.{Setup}
use apogee.Boot.{Inputs, loops, spawn_both, start_executor}

module _ (c : Crates) (fs : Futures) where
  -- A task joins the queue and the map.
  record HasSpawned (s u : State c fs) (task : Task fs) : Type 0 where
    queue : c.contents u.executor.task_queue ≡ c.contents s.executor.task_queue ++ task.id ∷ []
    room : c.capacity u.executor.task_queue ≡ c.capacity s.executor.task_queue
    tasks : u.executor.tasks ≡ insert task.id task s.executor.tasks

  spawn-HasSpawned :
      (s : State c fs) (task : Task fs)
      → lookup task.id s.executor.tasks ≡ none
      → length (c.contents s.executor.task_queue) < c.capacity s.executor.task_queue
      → (u : State c fs) × (spawn c fs s task ≡ some u) × HasSpawned s u task
  unfolding spawn
  spawn-HasSpawned s task new room =
      let (q, pushed, back, same) = c.push_back s.executor.task_queue task.id room in
      (
        record s {
          executor = record s.executor {
            tasks = insert task.id task s.executor.tasks;
            task_queue = q;
          };
          counters = note_task_spawned s.counters;
        },
        rw (new, pushed, spawn) refl,
        record { queue = back; room = same; tasks = refl },
      )

-- Both startup tasks wait, the first one first.
pub record HasTasks {c : Crates} {fs : Futures} (i : Inputs fs) (e : State c fs) : Type 0 where
  pub waiting : c.contents e.executor.task_queue ≡ i.next_task ∷ suc i.next_task ∷ []
  pub example :
      lookup i.next_task e.executor.tasks
      ≡ some (record { id = i.next_task; future = i.example_task })
  pub keypresses :
      lookup (suc i.next_task) e.executor.tasks
      ≡ some (record { id = suc i.next_task; future = i.print_keypresses })

module _ (p : Paging) (c : Crates) (fs : Futures) (sels : Selectors) (i : Inputs fs)
    (ids : i.next_task + 1 < word) where
  abbrev example : Task fs
  example = record { id = i.next_task; future = i.example_task }

  abbrev keypresses : Task fs
  keypresses = record { id = suc i.next_task; future = i.print_keypresses }

  abbrev fresh : Setup p c → State c fs
  fresh s = record {
    executor = Executor.new c fs;
    counters = s.machine.threads.counters;
    world = i.world;
  }

  start_executor-spawn_both :
      (s : Setup p c)
      → start_executor p c fs sels i s ≡ spawn_both p c fs sels i s (fresh s) example keypresses
  unfolding start_executor Task.new Task.new_id
  start_executor-spawn_both s =
      let next : add64 i.next_task 1 ≡ suc i.next_task =
        add64-eq-add i.next_task 1 ids ∙ omega arith in
      rw next refl

  pub start_executor-HasTasks :
      (s : Setup p c)
      → (e : State c fs) × (start_executor p c fs sels i s ≡ loops s e) × HasTasks i e
  unfolding spawn_both
  start_executor-HasTasks s =
      let empty = c.contents-new_queue task_queue_capacity in
      let large = c.capacity-new_queue task_queue_capacity in
      let missing : lookup {V = Task fs} (suc i.next_task) [] ≡ none =
        lookup-none (suc i.next_task) [] refl in
      let (a, out, one) =
        spawn-HasSpawned c fs (fresh s) example (lookup-none i.next_task [] refl)
          (rw (empty, large) (omega arith)) in
      let (b, done, two) =
        spawn-HasSpawned c fs a keypresses
          (rw one.tasks
            (ground (arith, lookup-insert i.next_task (suc i.next_task) example [], missing)))
          (rw (one.queue, one.room, empty, large) (omega arith)) in
      (
        b,
        rw (start_executor-spawn_both s, spawn_both, out, done) refl,
        record {
          waiting = two.queue ∙ rw (one.queue, empty) refl;
          example =
              rw (two.tasks, one.tasks)
                (ground (
                  arith,
                  lookup-insert (suc i.next_task) i.next_task keypresses
                      (insert i.next_task example []),
                  lookup-insert i.next_task i.next_task example [],
                ));
          keypresses =
              rw (two.tasks, one.tasks)
                (ground (
                  arith,
                  lookup-insert (suc i.next_task) (suc i.next_task) keypresses
                      (insert i.next_task example []),
                ));
        },
      )
