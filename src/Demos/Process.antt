-- ===== src/Demos/Process.antt =====
-- `userland_demo` of src/demos.rs: a process is created, its host thread runs it in ring 3 until it
-- exits, and the bootstrap thread yields meanwhile. What the processor raises while the process runs
-- is a list of interrupts. The run is on fuel.
pub mod Passing
pub mod Complete
pub mod Start
pub mod Whole
pub mod Fresh
mod Tests
use apogee.Base.{ℕ, zero, suc, Bool, true, false, List, [], ◌∷◌, none, some, ◌==◌}
use apogee.Thread
use apogee.Thread.{bootstrap_id, ready_count, yield_now}
use apogee.Keyboard.{Crates}
use apogee.Kernel.{Machine, Moment}
use apogee.Paging.{Paging}
use apogee.Gdt.{Selectors}
use apogee.Interrupts.{Interrupt, resumes, ended, panicked, handle}
use apogee.Userland.{
  Setup, CreateError, Created, created, failed, lost, create_demo_process, spawn_user_thread,
  user_thread_entry,
}

-- How a run of the loop ends: behind it, in a panic, or with fuel or interrupts used up.
pub data Driven (c : Crates) : Type 0 where
  finished : Machine c → Driven c
  crashed : Driven c
  unfinished : Driven c

module _ (c : Crates) (sels : Selectors) (now : ℕ → Moment) where
  -- The loop of the bootstrap thread, and the host thread of the process, which first enters ring 3,
  -- whenever it runs.
  unfoldable pub drive : ℕ → Bool → List Interrupt → Machine c → Driven c
  drive zero entered events m = unfinished
  drive (suc fuel) entered events m = elim (m.threads.sched.current == bootstrap_id) [
    | true ↦ elim (ready_count m.threads == 0) [
      | true ↦ finished m
      | false ↦ elim (yield_now m.threads (now fuel).rsp) [
        | Thread.running t ↦ drive fuel entered events (record m { threads = t })
        | Thread.panicked ↦ crashed
      ]
    ]
    | false ↦ elim entered [
      | false ↦ elim (user_thread_entry c m (now fuel) sels) [
        | none ↦ crashed
        | some frame ↦ drive fuel true events m
      ]
      | true ↦ elim events [
        | [] ↦ unfinished
        | event ∷ rest ↦ elim (handle c m (now fuel) event) [
          | resumes u vectors ↦ drive fuel true rest u
          | ended u ↦ drive fuel true rest u
          | panicked ↦ crashed
        ]
      ]
    ]
  ]

-- How the demo ends: at its early return, at its end, or as the loop does.
pub data Demo (p : Paging) (c : Crates) : Type 0 where
  not_created : Setup p c → CreateError → Demo p c
  completed : Setup p c → Demo p c
  broken : Demo p c
  spent : Demo p c

module _ (p : Paging) (c : Crates) (sels : Selectors) (now : ℕ → Moment) where
  -- One more yield, to drain the reaper.
  unfoldable pub after_loop : Setup p c → ℕ → Driven c → Demo p c
  after_loop s fuel (finished m) = elim (yield_now m.threads (now fuel).rsp) [
    | Thread.running t ↦ completed (record s { machine = record m { threads = t } })
    | Thread.panicked ↦ broken
  ]
  after_loop s fuel crashed = broken
  after_loop s fuel unfinished = spent

  unfoldable pub after_create : ℕ → List Interrupt → Setup p c × Created → Demo p c
  after_create fuel events (s, failed e) = not_created s e
  after_create fuel events (s, lost) = broken
  after_create fuel events (s, created pid) = elim (spawn_user_thread c s.machine (now fuel) pid) [
    | none ↦ broken
    | some m ↦ after_loop s fuel (drive c sels now fuel false events m)
  ]

  unfoldable pub userland_demo : ℕ → List Interrupt → Setup p c → Demo p c
  userland_demo fuel events s = after_create fuel events (create_demo_process p c s (now fuel))
