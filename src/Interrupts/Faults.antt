-- ===== src/Interrupts/Faults.antt =====
-- The faults that src/interrupts.rs handles.
use apogee.Base.{
  ℕ, ◌-◌, ◌^◌, ◌≡◌, ◌∙◌, refl, ◌≢◌, ◌⊎◌, inl, inr, List, true, false, ◌==◌, ==_iff, Bool-cases,
}
use apogee.Base.Maps.{IsMap}
use apogee.Thread.{current_process}
use apogee.Thread.Consistent.{IsConsistent}
use apogee.Keyboard.{Crates}
use apogee.Kernel.{Machine, Moment}
use apogee.Syscall.{left, failed, sys_exit}
use apogee.Syscall.Dispatch.{HasLeft, sys_exit-HasLeft}
use apogee.Interrupts.{
  InterruptStackFrame, faulted_in_ring3, panicked, ended, page_fault, general_protection_fault,
  kill_faulting_process, println, gpf_handler, page_fault_handler, handle,
}

module _ (c : Crates) (m : Machine c) (now : Moment) where
  -- It makes the process exit as the process itself would.
  kill-sys_exit :
      current_process m.threads ≢ 0
      → kill_faulting_process c m now ≡ sys_exit c m now (current_process m.threads) (2 ^ 32 - 1)
  unfolding kill_faulting_process sys_exit
  kill-sys_exit h = elim (Bool-cases (current_process m.threads == 0)) [
    | inl same ↦ absurd (h ((==_iff (current_process m.threads) 0).0 same))
    | inr apart ↦ rw (apart) refl
  ]

  pub kill-HasLeft :
      IsConsistent m.threads
      → m.threads.sched.current ≢ 0
      → IsMap m.processes
      → current_process m.threads ≢ 0
      → (u : Machine c) × (kill_faulting_process c m now ≡ left u)
        × HasLeft m (current_process m.threads) u
  kill-HasLeft v real single h =
      let (u, out, done) =
        sys_exit-HasLeft c m now v real single (current_process m.threads) (2 ^ 32 - 1) in
      (u, kill-sys_exit h ∙ out, done)

  kill_kernel : current_process m.threads ≡ 0 → kill_faulting_process c m now ≡ failed
  unfolding kill_faulting_process
  kill_kernel h = rw ((==_iff (current_process m.threads) 0).1 h) refl

module _ (c : Crates) (m : Machine c) (now : Moment) (frame : InterruptStackFrame)
    (text : List ℕ) where
  -- With a consistent scheduler and a registry without repeated pids, a page fault or a general
  -- protection fault of ring 3, on a thread other than the bootstrap one that hosts a process, does
  -- not panic: the process is no longer registered, every other process still is as it was, and the
  -- host thread is parked for the reaper while the next one in the queue runs.
  pub fault-HasLeft :
      IsConsistent m.threads
      → IsMap m.processes
      → m.threads.sched.current ≢ 0
      → current_process m.threads ≢ 0
      → faulted_in_ring3 frame ≡ true
      → (u : Machine c) × (handle c m now (page_fault frame text) ≡ ended u)
        × (handle c m now (general_protection_fault frame text) ≡ ended u)
        × HasLeft m (current_process m.threads) u
  unfolding handle page_fault_handler gpf_handler
  fault-HasLeft v single real h ring3 =
      let (u, out, done) = kill-HasLeft c (println c m text) now v real single h in
      (
        u,
        rw (ring3, out) refl,
        rw (ring3, out) refl,
        record {
          unregistered = done.unregistered;
          others = done.others;
          host = done.host;
          single = done.single;
        },
      )

  -- A fault of the kernel, and one of ring 3 on a thread that hosts no process, is a panic.
  pub fault-panics :
      (faulted_in_ring3 frame ≡ false) ⊎ (current_process m.threads ≡ 0)
      → (handle c m now (page_fault frame text) ≡ panicked)
        × (handle c m now (general_protection_fault frame text) ≡ panicked)
  unfolding handle page_fault_handler gpf_handler
  fault-panics (inl ring0) = (rw ring0 refl, rw ring0 refl)
  fault-panics (inr kernel) =
      let killed = kill_kernel c (println c m text) now kernel in
      elim (Bool-cases (faulted_in_ring3 frame)) [
        | inl ring3 ↦ (rw (ring3, killed) refl, rw (ring3, killed) refl)
        | inr ring0 ↦ (rw ring0 refl, rw ring0 refl)
      ]
