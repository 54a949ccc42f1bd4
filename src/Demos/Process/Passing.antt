-- ===== src/Demos/Process/Passing.antt =====
-- The interrupts that leave the threads and the processes of src/demos.rs as they are.
use apogee.Base.{ℕ, ◌≡◌, ◌≢◌, refl, inl, inr, Option, false, ◌==◌, ==_iff, Bool-cases, arith}
use apogee.Scheduler.{tick}
use apogee.Thread.{Threads, current_process}
use apogee.Thread.Consistent.{IsConsistent}
use apogee.Keyboard.{Crates}
use apogee.Kernel.{Machine, Moment, call, on_tick, on_scancode}
use apogee.Kernel.Abi.{Caller, user}
use apogee.Syscall.{
  SyscallFrame, Outcome, returns, left, failed, faults, match_answer, sys_write, sys_read,
  syscall_dispatch,
}
use apogee.Syscall.Window.{IsUserRange, IsUserRange-cases, IsReadable, WritesReadable}
use apogee.Syscall.Dispatch.{sys_write_lem, sys_write_outside, sys_write_other}
use apogee.Interrupts.{
  Interrupt, breakpoint, double_fault, page_fault, general_protection_fault, timer_fired, key_event,
  system_call, outcome, Handled, resumes, ended, panicked, breakpoint_handler,
  timer_interrupt_handler, keyboard_interrupt_handler, handle,
}

-- Ticks, keys, and every system call but `exit`, `yield` and a `write` of bytes that are not mapped.
abbrev pub IsPassing : Interrupt → Type 0
IsPassing (breakpoint frame text) = ⊥
IsPassing double_fault = ⊥
IsPassing (page_fault frame text) = ⊥
IsPassing (general_protection_fault frame text) = ⊥
IsPassing timer_fired = Unit
IsPassing (key_event scancode) = Unit
IsPassing (system_call frame mem) = (frame.rax ≢ 0) × (frame.rax ≢ 3) × WritesReadable mem frame

pub record IsUnmoved {c : Crates} (m u : Machine c) : Type 0 where
  pub consistent : IsConsistent u.threads
  pub sched : u.threads.sched ≡ m.threads.sched
  pub processes : u.processes ≡ m.processes

pub current_process_sched :
    (t u : Threads) → u.sched ≡ t.sched → current_process u ≡ current_process t
unfolding current_process
current_process_sched t u e = rw e refl

-- The call comes back with the threads and the processes as they were.
abbrev Passes : {c : Crates} → Machine c → Outcome c → Type 0
Passes m (returns u value) = IsUnmoved m u
Passes m (left u) = ⊥
Passes m failed = ⊥
Passes m faults = ⊥

abbrev pub Goes : {c : Crates} → Machine c → Handled c → Type 0
Goes m (resumes u vectors) = IsUnmoved m u
Goes m (ended u) = ⊥
Goes m panicked = ⊥

module _ (c : Crates) (m : Machine c) (now : Moment) (v : IsConsistent m.threads) where
  unmoved : IsUnmoved m m
  unmoved = record { consistent = v; sched = refl; processes = refl }

  sys_write-Passes :
      (mem : ℕ → Option ℕ) (caller : Caller) (frame : SyscallFrame)
      → (frame.rdi ≡ 1 → IsUserRange frame.rsi frame.rdx → IsReadable mem frame.rsi frame.rdx)
      → Passes m (sys_write c m now mem caller frame)
  sys_write-Passes mem caller frame readable = elim (Bool-cases (frame.rdi == 1)) [
    | inr other ↦ rw (sys_write_other c m now mem frame caller (ground arith)) unmoved
    | inl stdout ↦
        let fd = (==_iff frame.rdi 1).0 stdout in
        elim (IsUserRange-cases frame.rsi frame.rdx) [
          | inr outside ↦ rw (sys_write_outside c m now mem frame caller fd outside) unmoved
          | inl range ↦
              let (bytes, _, out) =
                sys_write_lem c m now mem frame caller fd range (readable fd range) in
              rw out (record { consistent = v; sched = refl; processes = refl })
        ]
  ]

  sys_read-Passes : (caller : Caller) → Passes m (sys_read c m now caller)
  unfolding sys_read call match_answer
  sys_read-Passes caller = record { consistent = v; sched = refl; processes = refl }

  syscall_dispatch-Passes :
      (mem : ℕ → Option ℕ) (frame : SyscallFrame)
      → frame.rax ≢ 0
      → frame.rax ≢ 3
      → WritesReadable mem frame
      → Passes m (syscall_dispatch c m now mem frame)
  unfolding syscall_dispatch
  syscall_dispatch-Passes mem frame not_exit not_yield readable =
      let pid = current_process m.threads in
      let zero : (frame.rax == 0) ≡ false = ground arith in
      let three : (frame.rax == 3) ≡ false = ground arith in
      rw zero (elim (Bool-cases (frame.rax == 1)) [
        | inl e ↦ rw e (sys_write-Passes mem (user pid) frame (readable ((==_iff frame.rax 1).0 e)))
        | inr not_write ↦ rw not_write (elim (Bool-cases (frame.rax == 2)) [
          | inl e ↦ rw e (sys_read-Passes (user pid))
          | inr not_read ↦ rw (not_read, three) unmoved
        ])
      ])

  outcome-Goes : (o : Outcome c) → Passes m o → Goes m (outcome c o)
  outcome-Goes (returns u value) s = s
  outcome-Goes (left u) s = s
  outcome-Goes failed s = s
  outcome-Goes faults s = s

  pub handle-Goes : (e : Interrupt) → IsPassing e → Goes m (handle c m now e)
  unfolding handle breakpoint_handler timer_interrupt_handler keyboard_interrupt_handler on_tick
      on_scancode tick
  handle-Goes (breakpoint frame text) h = absurd h
  handle-Goes double_fault h = absurd h
  handle-Goes (page_fault frame text) h = absurd h
  handle-Goes (general_protection_fault frame text) h = absurd h
  handle-Goes timer_fired h = record {
    consistent = record {
      places = v.places;
      single = v.single;
      fresh = v.fresh;
      positive = v.positive;
      alive = v.alive;
    };
    sched = refl;
    processes = refl;
  }
  handle-Goes (key_event scancode) h = record { consistent = v; sched = refl; processes = refl }
  handle-Goes (system_call frame mem) h =
      outcome-Goes (syscall_dispatch c m now mem frame)
        (syscall_dispatch-Passes mem frame h.0 h.1 h.2)
