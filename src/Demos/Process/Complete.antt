-- ===== src/Demos/Process/Complete.antt =====
-- The userland demo of src/demos.rs ends, with the process and its thread gone.
use apogee.Base.{
  ℕ, Option, zero, suc, ◌+◌, ◌<◌, ◌≡◌, ◌≢◌, refl, sym, ◌∙◌, subst, List, [], ◌∷◌, ◌++◌, none, Bool,
  true, false, ◌==◌, length, All, arith,
}
use apogee.Base.Maps.{lookup, IsMap}
use apogee.Thread.{current_process}
use apogee.Thread.Consistent.{IsConsistent}
use apogee.Keyboard.{Crates}
use apogee.Kernel.{Machine, Moment}
use apogee.Process.{Process}
use apogee.Gdt.{Selectors}
use apogee.Syscall.{SyscallFrame}
use apogee.Syscall.Dispatch.{exit-dispatch}
use apogee.Interrupts.{Interrupt, system_call, Handled, resumes, ended, panicked, handle}
use apogee.Demos.Finish.{IsQuiet, ready-IsQuiet, ready_count_none}
use apogee.Demos.Process.{Driven, finished, crashed, unfinished, drive}
use apogee.Demos.Process.Passing.{IsPassing, IsUnmoved, Goes, handle-Goes, current_process_sched}

-- The host thread of `pid` runs, and only the bootstrap thread waits.
pub record IsHosted {c : Crates} (m : Machine c) (pid : ℕ) : Type 0 where
  pub consistent : IsConsistent m.threads
  pub real : m.threads.sched.current ≢ 0
  pub waiting : m.threads.sched.ready ≡ 0 ∷ []
  pub hosts : current_process m.threads ≡ pid
  pub single : IsMap m.processes

-- Only the bootstrap thread is left, and of the processes all but `pid`.
pub record HasEnded {c : Crates} (processes : List (ℕ × Process)) (pid : ℕ) (u : Machine c)
    : Type 0 where
  pub quiet : IsQuiet u.threads
  pub unregistered : lookup pid u.processes ≡ none
  pub others : (x : ℕ) → x ≢ pid → lookup x u.processes ≡ lookup x processes

abbrev pub Ends : {c : Crates} → List (ℕ × Process) → ℕ → Driven c → Type 0
Ends processes pid (finished u) = HasEnded processes pid u
Ends processes pid crashed = ⊥
Ends processes pid unfinished = ⊥

module _ (c : Crates) (sels : Selectors) (now : ℕ → Moment) where
  drive-quiet :
      (fuel : ℕ) (entered : Bool) (events : List Interrupt) (m : Machine c)
      → 0 < fuel
      → IsQuiet m.threads
      → drive c sels now fuel entered events m ≡ finished m
  unfolding drive
  drive-quiet zero entered events m h q = absurd (omega arith)
  drive-quiet (suc fuel) entered events m h q =
      let here : (m.threads.sched.current == 0) ≡ true = ground (arith, q.bootstrap) in
      rw (here, ready_count_none m.threads q.no_ready, drive) refl

  handled-Ends :
      (processes : List (ℕ × Process)) (pid : ℕ) (m : Machine c) (k : Machine c → Driven c)
      (h : Handled c)
      → Goes m h
      → ((u : Machine c) → IsUnmoved m u → Ends processes pid (k u))
      → Ends processes pid (elim h [ resumes u vectors ↦ k u | ended u ↦ k u | panicked ↦ crashed ])
  handled-Ends processes pid m k (resumes u vectors) g f = f u g
  handled-Ends processes pid m k (ended u) g f = absurd g
  handled-Ends processes pid m k panicked g f = absurd g

  module _ (frame : SyscallFrame) (mem : ℕ → Option ℕ) (is_exit : frame.rax ≡ 0) where
    exited :
        (m : Machine c) (pid : ℕ) (fuel : ℕ)
        → IsHosted m pid
        → 1 < fuel
        → Ends m.processes pid (drive c sels now fuel true (system_call frame mem ∷ []) m)
    unfolding drive handle
    exited m pid zero i h = absurd (omega arith)
    exited m pid (suc fuel) i h =
        let real : (m.threads.sched.current == 0) ≡ false = ground (arith, i.real) in
        let (u, out, done) =
          exit-dispatch c m (now fuel) i.consistent i.real i.single mem frame is_exit in
        let order = sym i.waiting ∙ done.host.order in
        let quiet = ready-IsQuiet u.threads done.host.consistent (ground arith) (ground arith) in
        rw (real, drive)
          (rw (out, drive-quiet fuel true [] u (omega arith) quiet)
            (record {
              quiet = quiet;
              unregistered = rw i.hosts at done.unregistered;
              others = rw i.hosts at done.others;
            }))

    pub hosted :
        (es : List Interrupt) (m : Machine c) (pid : ℕ) (fuel : ℕ)
        → All IsPassing es
        → IsHosted m pid
        → length es + 1 < fuel
        → Ends m.processes pid (drive c sels now fuel true (es ++ system_call frame mem ∷ []) m)
    unfolding drive
    hosted [] m pid fuel a i h = exited m pid fuel i (omega arith)
    hosted (e ∷ es) m pid zero a i h = absurd (omega arith)
    hosted (e ∷ es) m pid (suc fuel) a i h =
        let real : (m.threads.sched.current == 0) ≡ false = ground (arith, i.real) in
        rw (real, drive)
          (handled-Ends m.processes pid m
            (drive c sels now fuel true (es ++ system_call frame mem ∷ []))
            (handle c m (now fuel) e) (handle-Goes c m (now fuel) i.consistent e a.0)
            λ u same.
              subst
                (λ ps.
                  Ends ps pid (drive c sels now fuel true (es ++ system_call frame mem ∷ []) u))
                same.processes
                (hosted es u pid fuel a.1
                  (record {
                    consistent = same.consistent;
                    real = rw same.sched i.real;
                    waiting = rw same.sched i.waiting;
                    hosts = current_process_sched m.threads u.threads same.sched ∙ i.hosts;
                    single = rw same.processes i.single;
                  })
                  (omega arith)))
