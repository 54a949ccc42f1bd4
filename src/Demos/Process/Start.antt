-- ===== src/Demos/Process/Start.antt =====
-- The loop of `userland_demo` of src/demos.rs from the spawn of the host thread on.
use apogee.Base.{
  ℕ, Option, zero, suc, ◌+◌, ◌<◌, ◌≡◌, ◌≢◌, refl, ◌∙◌, List, [], ◌∷◌, ◌++◌, some, true, false, ◌==◌,
  length, All, word, arith,
}
use apogee.Base.Maps.{lookup, IsMap, lookup-insert}
use apogee.Thread
use apogee.Thread.{Threads, KernelThread, yield_now, current_process}
use apogee.Thread.Consistent.{IsConsistent}
use apogee.Thread.Steps
use apogee.Thread.Steps.{add_thread-IsConsistent}
use apogee.Thread.RoundRobin.{tag, HasYielded, yield_now-HasYielded}
use apogee.Keyboard.{Crates}
use apogee.Kernel.{Machine, Moment}
use apogee.Process.{Process}
use apogee.Gdt.{Selectors}
use apogee.Syscall.{SyscallFrame}
use apogee.Interrupts.{Interrupt, system_call}
use apogee.Userland.Enter.{with_host, user_thread_entry_lem}
use apogee.Demos.Finish.{IsQuiet, ready_count_some}
use apogee.Demos.Process.{crashed, drive}
use apogee.Demos.Process.Passing.{IsPassing}
use apogee.Demos.Process.Complete.{IsHosted, Ends, hosted}

tag-current_process :
    (t : Threads) (pid : ℕ)
    → t.sched.current ≢ 0
    → tag t.sched t.sched.current ≡ some pid
    → current_process t ≡ pid
unfolding current_process
tag-current_process t pid real h = ground arith

spawn_host :
    (t : Threads) (pid stack rsp : ℕ)
    → let u = (Thread.add_thread t pid stack rsp).0 in
      (u.sched.current ≡ t.sched.current) × (tag u.sched t.next_id ≡ some pid)
unfolding Thread.add_thread
spawn_host t pid stack rsp =
    let thread : KernelThread = record {
      id = t.next_id;
      process = pid;
      rsp = rsp;
      stack = stack;
    } in
    (refl, ground (arith, lookup-insert t.next_id t.next_id thread t.sched.threads))

module _ (c : Crates) (sels : Selectors) (now : ℕ → Moment) (frame : SyscallFrame)
    (mem : ℕ → Option ℕ) (is_exit : frame.rax ≡ 0) (es : List Interrupt)
    (passing : All IsPassing es) where
  entered :
      (m : Machine c) (pid : ℕ) (p : Process) (fuel : ℕ)
      → IsHosted m pid
      → lookup pid m.processes ≡ some p
      → length es + 2 < fuel
      → Ends m.processes pid (drive c sels now fuel false (es ++ system_call frame mem ∷ []) m)
  unfolding drive
  entered m pid p zero i found h = absurd (omega arith)
  entered m pid p (suc fuel) i found h =
      let real : (m.threads.sched.current == 0) ≡ false = ground (arith, i.real) in
      rw (real, user_thread_entry_lem c m (now fuel) sels pid p i.hosts found, drive)
        (hosted c sels now frame mem is_exit es m pid fuel passing i (omega arith))

  switched :
      (m : Machine c) (pid : ℕ) (fuel : ℕ) (o : Thread.Outcome) (P : Threads → Type 0)
      → Steps.Ends P o
      → ((t : Threads)
          → P t
          → Ends m.processes pid (
              drive c sels now fuel false
                (es ++ system_call frame mem ∷ [])
                (record m { threads = t })))
      → Ends m.processes pid (elim o [
        | Thread.running t ↦
            drive c sels now fuel false
              (es ++ system_call frame mem ∷ [])
              (record m { threads = t })
        | Thread.panicked ↦ crashed
      ])
  switched m pid fuel (Thread.running t) P e k = k t e
  switched m pid fuel Thread.panicked P e k = absurd e

  -- The bootstrap thread, with only the host thread `id` waiting, hands over to it.
  handed :
      (m : Machine c) (pid id : ℕ) (p : Process) (fuel : ℕ)
      → IsConsistent m.threads
      → m.threads.sched.current ≡ 0
      → m.threads.sched.ready ≡ id ∷ []
      → id ≢ 0
      → tag m.threads.sched id ≡ some pid
      → IsMap m.processes
      → lookup pid m.processes ≡ some p
      → length es + 3 < fuel
      → Ends m.processes pid (drive c sels now fuel false (es ++ system_call frame mem ∷ []) m)
  unfolding drive
  handed m pid id p zero v here ready real host single found h = absurd (omega arith)
  handed m pid id p (suc fuel) v here ready real host single found h =
      let boot : (m.threads.sched.current == 0) ≡ true = ground arith in
      let rsp = (now fuel).rsp in
      rw (boot, ready_count_some m.threads id [] ready, drive)
        (switched m pid fuel (yield_now m.threads rsp) (HasYielded m.threads rsp id [])
          (yield_now-HasYielded m.threads rsp id [] v ready)
          λ t y.
            let on : t.sched.current ≢ 0 = rw y.runs real in
            entered (record m { threads = t }) pid p fuel
              (record {
                consistent = y.consistent;
                real = on;
                waiting = y.queue ∙ rw here refl;
                hosts = tag-current_process t pid on (rw y.runs (y.tags id ∙ host));
                single = single;
              })
              found (omega arith))

  -- From the spawn of the host thread of a registered process on, with no other thread there.
  pub spawned-Ends :
      (m : Machine c) (at : Moment) (pid : ℕ) (p : Process) (fuel : ℕ)
      → IsQuiet m.threads
      → m.threads.next_id + 1 < word
      → IsMap m.processes
      → lookup pid m.processes ≡ some p
      → length es + 3 < fuel
      → Ends m.processes pid
          (drive c sels now fuel false (es ++ system_call frame mem ∷ []) (with_host m pid at))
  spawned-Ends m at pid p fuel q room single found h =
      let t = m.threads in
      let (v, ready, _) = add_thread-IsConsistent t pid at.stack at.initial_rsp room q.consistent in
      let (current, host) = spawn_host t pid at.stack at.initial_rsp in
      handed (with_host m pid at) pid t.next_id p fuel v (current ∙ q.bootstrap)
        (ready ∙ rw q.no_ready refl) (omega (arith, q.consistent.positive)) host single found h
