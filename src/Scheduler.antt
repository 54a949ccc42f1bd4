-- ===== src/Scheduler.antt =====
-- src/scheduler.rs: the lock-free counters. Each field is an atomic; an operation here is one
-- `fetch_add` or `fetch_sub`, which wraps, or the sequence of them that the source makes.
use apogee.Base.{ℕ, ◌%◌, Bool, ◌==◌, add64, sub64}

pub record Scheduler : Type 0 where
  pub tick_count : ℕ
  pub threads_alive : ℕ
  pub threads_spawned : ℕ
  pub tasks_alive : ℕ
  pub tasks_spawned : ℕ
  pub tasks_completed : ℕ
  pub processes_alive : ℕ
  pub processes_spawned : ℕ

abbrev pub tick_log_interval : ℕ
tick_log_interval = 200

abbrev pub new : Scheduler
new = record {
  tick_count = 0;
  threads_alive = 0;
  threads_spawned = 0;
  tasks_alive = 0;
  tasks_spawned = 0;
  tasks_completed = 0;
  processes_alive = 0;
  processes_spawned = 0;
}

-- The counters, and whether the heartbeat is logged. `fetch_add(1) + 1` is the new count.
unfoldable pub tick : Scheduler → Scheduler × Bool
unfolding add64
tick s =
    let ticks = add64 s.tick_count 1 in
    (record s { tick_count = ticks }, ticks % tick_log_interval == 0)

unfoldable pub note_thread_spawned : Scheduler → Scheduler
unfolding add64
note_thread_spawned s = record s {
  threads_alive = add64 s.threads_alive 1;
  threads_spawned = add64 s.threads_spawned 1;
}

unfoldable pub note_thread_exited : Scheduler → Scheduler
unfolding sub64
note_thread_exited s = record s { threads_alive = sub64 s.threads_alive 1 }

unfoldable pub note_task_spawned : Scheduler → Scheduler
unfolding add64
note_task_spawned s = record s {
  tasks_alive = add64 s.tasks_alive 1;
  tasks_spawned = add64 s.tasks_spawned 1;
}

unfoldable pub note_task_completed : Scheduler → Scheduler
unfolding add64 sub64
note_task_completed s = record s {
  tasks_alive = sub64 s.tasks_alive 1;
  tasks_completed = add64 s.tasks_completed 1;
}

unfoldable pub note_process_spawned : Scheduler → Scheduler
unfolding add64
note_process_spawned s = record s {
  processes_alive = add64 s.processes_alive 1;
  processes_spawned = add64 s.processes_spawned 1;
}

unfoldable pub note_process_exited : Scheduler → Scheduler
unfolding sub64
note_process_exited s = record s { processes_alive = sub64 s.processes_alive 1 }
