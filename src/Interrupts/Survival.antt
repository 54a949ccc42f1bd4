-- ===== src/Interrupts/Survival.antt =====
-- No sequence of interrupts that src/interrupts.rs handles while user processes run panics.
use apogee.Base.{ℕ, ◌≡◌, ◌≢◌, List, true}
use apogee.Base.Maps.{IsMap}
use apogee.Thread
use apogee.Thread.{Threads, current_process}
use apogee.Thread.Consistent.{IsConsistent}
use apogee.Keyboard.{Crates}
use apogee.Kernel.{Machine, Moment}
use apogee.Syscall.{Outcome, returns, left, failed, faults}
use apogee.Syscall.Window.{WritesReadable}
use apogee.Interrupts.{
  faulted_in_ring3, Handled, resumes, panicked, ended, Interrupt, breakpoint, double_fault,
  page_fault, general_protection_fault, timer_fired, key_event, system_call, handle,
}

-- What the kernel relies on.
abbrev pub IsOrderly : {c : Crates} → Machine c → Type 0
IsOrderly m = IsConsistent m.threads × IsMap m.processes

-- The handler did not panic, and left the kernel orderly.
abbrev pub Survives : {c : Crates} → Handled c → Type 0
Survives (resumes m vectors) = IsOrderly m
Survives (ended m) = IsOrderly m
Survives panicked = ⊥

abbrev Spared : {c : Crates} → Outcome c → Type 0
Spared (returns m value) = IsOrderly m
Spared (left m) = IsOrderly m
Spared failed = ⊥
Spared faults = ⊥

-- A process runs on the current thread, which is not the bootstrap one.
abbrev pub InProcess : {c : Crates} → Machine c → Type 0
InProcess m = (m.threads.sched.current ≢ 0) × (current_process m.threads ≢ 0)

-- What ring 3 can raise, and what the hardware raises at any time. A double fault and a fault of
-- the kernel itself are neither, and a `write` of a buffer that is not mapped leads to one.
abbrev pub Possible : {c : Crates} → Machine c → Interrupt → Type 0
Possible m (breakpoint frame text) = faulted_in_ring3 frame ≡ true → InProcess m
Possible m double_fault = ⊥
Possible m (page_fault frame text) = InProcess m × (faulted_in_ring3 frame ≡ true)
Possible m (general_protection_fault frame text) = InProcess m × (faulted_in_ring3 frame ≡ true)
Possible m timer_fired = Unit
Possible m (key_event scancode) = Unit
Possible m (system_call frame mem) = InProcess m × WritesReadable mem frame

-- The states that interrupts lead to.
pub data Reaches {c : Crates} (m : Machine c) : Machine c → Type 0 where
  here : Reaches m m
  resumed :
      (u w : Machine c) (now : Moment) (e : Interrupt) (vectors : List ℕ)
      → Reaches m u
      → Possible u e
      → handle c u now e ≡ resumes w vectors
      → Reaches m w
  switched :
      (u w : Machine c) (now : Moment) (e : Interrupt)
      → Reaches m u
      → Possible u e
      → handle c u now e ≡ ended w
      → Reaches m w
