-- ===== src/Task/Executor/Sleep.antt =====
-- `run` and `sleep_if_idle` of src/task/executor.rs, instruction by instruction, with the interrupts
-- that wake tasks at any time that they are enabled.
use apogee.Base.{◌≡◌, refl, [], Bool, true, false, some, arith}
use apogee.Keyboard.{Crates}
use apogee.Task.Executor.{TaskWaker, wake_task}

-- Where `run` stands: in `run_ready_tasks`, behind `interrupts::disable`, in either branch of the
-- test of the queue, or halted.
pub data Place : Type 0 where
  polling : Place
  disabled : Place
  found_empty : Place
  found_busy : Place
  halted : Place

-- An interrupt returns to where it came, and past the `hlt` when the processor was halted.
unfoldable pub resumed : Place → Place
resumed halted = polling
resumed polling = polling
resumed disabled = disabled
resumed found_empty = found_empty
resumed found_busy = found_busy

-- Whether interrupts are enabled is a state of its own.
pub record Processor (c : Crates) : Type 0 where
  pub place : Place
  pub interrupts : Bool
  pub queue : c.Queue

-- `interrupts::disable`, at the start of `sleep_if_idle`
unfoldable pub disable_interrupts : {c : Crates} → Processor c → Processor c
disable_interrupts s = record s { place = disabled; interrupts = false }

-- `enable_and_hlt`: `sti` takes effect behind the `hlt`, so that no interrupt comes between them.
unfoldable pub enable_and_hlt : {c : Crates} → Processor c → Processor c
enable_and_hlt s = record s { place = halted; interrupts = true }

-- `interrupts::enable`, and back to `run_ready_tasks`
unfoldable pub enable_interrupts : {c : Crates} → Processor c → Processor c
enable_interrupts s = record s { place = polling; interrupts = true }

pub data Step {c : Crates} : Processor c → Processor c → Type 0 where
  -- `run_ready_tasks` leaves the queue in some state
  ran : (s : Processor c) (r : c.Queue) → s.place ≡ polling → Step s (record s { queue = r })
  disable : (s : Processor c) → s.place ≡ polling → Step s (disable_interrupts s)
  is_empty :
      (s : Processor c)
      → s.place ≡ disabled
      → c.is_empty s.queue ≡ true
      → Step s (record s { place = found_empty })
  is_busy :
      (s : Processor c)
      → s.place ≡ disabled
      → c.is_empty s.queue ≡ false
      → Step s (record s { place = found_busy })
  halt : (s : Processor c) → s.place ≡ found_empty → Step s (enable_and_hlt s)
  enable : (s : Processor c) → s.place ≡ found_busy → Step s (enable_interrupts s)
  -- An interrupt that wakes no task
  tick : (s : Processor c) → s.interrupts ≡ true → Step s (record s { place = resumed s.place })
  -- An interrupt that wakes a task
  interrupt :
      (s : Processor c) (r : c.Queue) (waker : TaskWaker)
      → s.interrupts ≡ true
      → wake_task c s.queue waker ≡ some r
      → Step s (record s { place = resumed s.place; queue = r })

pub data Runs {c : Crates} : Processor c → Processor c → Type 0 where
  start : (p : Processor c) → Runs p p
  then_step : (p q r : Processor c) → Runs p q → Step q r → Runs p r

-- From `disable` on no interrupt comes until the processor halts or polls again, so that the queue
-- stays as the test found it.
abbrev Guarded : (c : Crates) → (place : Place) → Bool → c.Queue → Type 0
Guarded c polling interrupts q = Unit
Guarded c disabled interrupts q = interrupts ≡ false
Guarded c found_empty interrupts q = (interrupts ≡ false) × (c.contents q ≡ [])
Guarded c found_busy interrupts q = interrupts ≡ false
Guarded c halted interrupts q = c.contents q ≡ []

abbrev IsGuarded : {c : Crates} → Processor c → Type 0
IsGuarded {c = c} s = Guarded c s.place s.interrupts s.queue

-- After an interrupt only the places where interrupts are enabled are left.
resumed-Guarded :
    (c : Crates) (place : Place) (interrupts : Bool) (q r : c.Queue)
    → interrupts ≡ true
    → Guarded c place interrupts q
    → Guarded c (resumed place) interrupts r
unfolding resumed
resumed-Guarded c polling interrupts q r on v = tt
resumed-Guarded c disabled interrupts q r on v = absurd (ground arith)
resumed-Guarded c found_empty interrupts q r on v = absurd (ground arith)
resumed-Guarded c found_busy interrupts q r on v = absurd (ground arith)
resumed-Guarded c halted interrupts q r on v = tt

step-IsGuarded : {c : Crates} (p q : Processor c) → Step p q → IsGuarded p → IsGuarded q
unfolding disable_interrupts enable_and_hlt enable_interrupts
step-IsGuarded p _ (ran _ r here) v = rw here tt
step-IsGuarded p _ (disable _ here) v = refl
step-IsGuarded {c = c} p _ (is_empty _ here empty) v =
    (rw here at v, (c.is_empty_iff p.queue).0 empty)
step-IsGuarded p _ (is_busy _ here busy) v = rw here at v
step-IsGuarded p _ (halt _ here) v = (rw here at v).1
step-IsGuarded p _ (enable _ here) v = tt
step-IsGuarded {c = c} p _ (tick _ on) v =
    resumed-Guarded c p.place p.interrupts p.queue p.queue on v
step-IsGuarded {c = c} p _ (interrupt _ r waker on woken) v =
    resumed-Guarded c p.place p.interrupts p.queue r on v

reached-IsGuarded : {c : Crates} (p q : Processor c) → IsGuarded p → Runs p q → IsGuarded q
reached-IsGuarded p _ v (start _) = v
reached-IsGuarded p _ v (then_step _ q r runs step) =
    step-IsGuarded q r step (reached-IsGuarded p q v runs)

-- Whatever tasks run and wherever interrupts come, also between the test of the queue and the halt if
-- they are enabled there: from `run_ready_tasks` on, the processor is never halted with a task in the
-- queue.
pub Runs-Idle :
    {c : Crates} (p q : Processor c)
    → p.place ≡ polling
    → Runs p q
    → q.place ≡ halted
    → c.contents q.queue ≡ []
Runs-Idle p q polls runs h = rw h at (reached-IsGuarded p q (rw polls tt) runs)
