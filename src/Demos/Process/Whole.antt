-- ===== src/Demos/Process/Whole.antt =====
-- `userland_demo` of src/demos.rs from its start to its end.
use apogee.Base.{
  ℕ, Option, ◌+◌, ◌<◌, ◌≡◌, ◌≢◌, refl, sym, ◌∙◌, inl, inr, List, [], ◌∷◌, ◌++◌, none, some, false,
  ◌==◌, ==_iff, Bool-cases, length, All, word, arith,
}
use apogee.Base.Maps.{lookup, lookup-insert, lookup-none, insert-IsMap, IsMap}
use apogee.Scheduler.{note_process_spawned}
use apogee.Process
use apogee.Process.{Process}
use apogee.Keyboard.{Crates}
use apogee.Kernel.{Machine, Moment, create, register}
use apogee.Kernel.Registry.{IsRegistry}
use apogee.Paging.{Paging}
use apogee.Gdt.{Selectors}
use apogee.Syscall.{SyscallFrame, user_code_base, user_stack_top}
use apogee.Interrupts.{Interrupt, system_call}
use apogee.Userland.{
  user_demo, user_stack_base, Setup, Created, created, failed, lost, create_demo_process,
  create_process_from_program,
}
use apogee.Userland.Create.{CreateOutcome, create_process_from_program-CreateOutcome}
use apogee.Userland.Enter.{with_host, spawn_user_thread-with_host, descriptor, create_here}
use apogee.Demos.Finish.{IsQuiet, yield_now-IsQuiet}
use apogee.Demos.Process.{
  Driven, finished, crashed, unfinished, Demo, not_created, completed, broken, spent, drive,
  after_loop, after_create, userland_demo,
}
use apogee.Demos.Process.Passing.{IsPassing}
use apogee.Demos.Process.Complete.{Ends}
use apogee.Demos.Process.Start.{spawned-Ends}

-- Nothing of the process and of its thread is left.
pub record IsDone {c : Crates} (m u : Machine c) : Type 0 where
  pub quiet : IsQuiet u.threads
  pub reaper_empty : u.threads.sched.reaper ≡ none
  pub none_alive : u.threads.counters.threads_alive ≡ 0
  pub processes : (x : ℕ) → lookup x u.processes ≡ lookup x m.processes

-- No page has changed but the two of the process.
abbrev pub SamePages : (p : Paging) → {c : Crates} → Setup p c → Setup p c → Type 0
SamePages p s u =
    (page : ℕ)
    → page ≢ user_code_base
    → page ≢ user_stack_base
    → p.translate_page u.mapper page ≡ p.translate_page s.mapper page

abbrev pub Completes : {p : Paging} {c : Crates} → Setup p c → Demo p c → Type 0
Completes {p = p} s (not_created u e) = (u.machine ≡ s.machine) × SamePages p s u
Completes {p = p} s (completed u) = IsDone s.machine u.machine × SamePages p s u
Completes s broken = ⊥
Completes s spent = ⊥

-- What a created process adds.
record HasAdded {c : Crates} (m u : Machine c) (pid : ℕ) : Type 0 where
  quiet : IsQuiet u.threads
  next_thread : u.threads.next_id ≡ m.threads.next_id
  unused : lookup pid m.processes ≡ none
  found : lookup pid u.processes ≡ some (descriptor pid user_code_base user_stack_top)
  others : (x : ℕ) → x ≢ pid → lookup x u.processes ≡ lookup x m.processes
  single : IsMap u.processes

create-HasAdded :
    (c : Crates) (m : Machine c)
    → IsQuiet m.threads
    → IsRegistry m
    → HasAdded m
        (create c m user_code_base user_stack_top).0
        (create c m user_code_base user_stack_top).1
unfolding create register Process.new note_process_spawned
create-HasAdded c m q v =
    let proc = descriptor m.next_pid user_code_base user_stack_top in
    record {
      quiet = record {
        consistent = record {
          places = q.consistent.places;
          single = q.consistent.single;
          fresh = q.consistent.fresh;
          positive = q.consistent.positive;
          alive = q.consistent.alive;
        };
        bootstrap = q.bootstrap;
        no_ready = q.no_ready;
        no_threads = q.no_threads;
      };
      next_thread = refl;
      unused = lookup-none m.next_pid m.processes (v.fresh m.next_pid (omega arith));
      found = create_here c m user_code_base user_stack_top;
      others = λ x h. ground (arith, lookup-insert m.next_pid x proc m.processes);
      single = insert-IsMap m.next_pid proc m.processes v.single;
    }

module _ (p : Paging) (c : Crates) (sels : Selectors) (now : ℕ → Moment) where
  -- The yield behind the loop, when the process that the loop ran was added to `m`.
  after_loop-Completes :
      (s u : Setup p c) (pid fuel : ℕ) (d : Driven c)
      → HasAdded s.machine u.machine pid
      → SamePages p s u
      → Ends u.machine.processes pid d
      → Completes s (after_loop p c sels now u fuel d)
  unfolding after_loop
  after_loop-Completes s u pid fuel (finished m) h k e =
      let (t, out, quiet, empty, alive) = yield_now-IsQuiet m.threads (now fuel).rsp e.quiet in
      rw (out, after_loop)
        (
          record {
            quiet = quiet;
            reaper_empty = empty;
            none_alive = alive;
            processes = λ x. elim (Bool-cases (x == pid)) [
              | inl same ↦
                  let equal : x ≡ pid = (==_iff x pid).0 same in
                  rw equal (e.unregistered ∙ sym h.unused)
              | inr apart ↦
                  let different : x ≢ pid = ground arith in
                  e.others x different ∙ h.others x different
            ];
          },
          k,
        )
  after_loop-Completes s u pid fuel crashed h k e = absurd e
  after_loop-Completes s u pid fuel unfinished h k e = absurd e

  module _ (frame : SyscallFrame) (mem : ℕ → Option ℕ) (is_exit : frame.rax ≡ 0)
      (es : List Interrupt) (passing : All IsPassing es) where
    after_create-Completes :
        (s : Setup p c) (fuel : ℕ) (o : Setup p c × Created)
        → IsQuiet s.machine.threads
        → IsRegistry s.machine
        → s.machine.threads.next_id + 1 < word
        → length es + 3 < fuel
        → (now fuel).stack ≢ 0
        → CreateOutcome p c s user_demo o
        → Completes s (after_create p c sels now fuel (es ++ system_call frame mem ∷ []) o)
    unfolding after_create
    after_create-Completes s fuel (u, created pid) q v room h there done =
        let added : HasAdded s.machine u.machine pid =
          rw done.registered at (create-HasAdded c s.machine q v) in
        rw (spawn_user_thread-with_host c u.machine pid (now fuel) there, after_create)
          (after_loop-Completes s u pid fuel
            (drive c sels now fuel false (es ++ system_call frame mem ∷ [])
              (with_host u.machine pid (now fuel)))
            added done.others
            (spawned-Ends c sels now frame mem is_exit es passing u.machine (now fuel) pid
              (descriptor pid user_code_base user_stack_top) fuel added.quiet
              (rw added.next_thread room) added.single added.found h))
    after_create-Completes s fuel (u, failed e) q v room h there done =
        (done.machine, λ page code stack. done.others page code)
    after_create-Completes s fuel (u, lost) q v room h there done = absurd done

    -- The userland demo ends without a panic. From a kernel with a sound registry and no thread but
    -- the bootstrap one, for a process that makes system calls other than `exit` and `yield`, of
    -- which no `write` names bytes that are not mapped, with ticks and keys at any time, and then
    -- exits: either the process is not created and the kernel is as it was, or the demo ends in the
    -- bootstrap thread with no thread tracked, ready or parked, no live thread counted, and the
    -- processes registered that were before; in both cases no page but the two of the process has
    -- changed. One thread id is left, the heap has room for the host thread, and four turns more
    -- than the interrupts before the exit are fuel enough.
    pub userland_demo-Completes :
        (s : Setup p c) (fuel : ℕ)
        → IsQuiet s.machine.threads
        → IsRegistry s.machine
        → s.machine.threads.next_id + 1 < word
        → length es + 3 < fuel
        → (now fuel).stack ≢ 0
        → Completes s (userland_demo p c sels now fuel (es ++ system_call frame mem ∷ []) s)
    unfolding userland_demo create_demo_process
    userland_demo-Completes s fuel q v room h there =
        after_create-Completes s fuel (create_process_from_program p c s (now fuel) user_demo) q v
          room h there (create_process_from_program-CreateOutcome p c s (now fuel) user_demo)
