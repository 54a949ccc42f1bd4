-- ===== src/Userland/Enter.antt =====
-- From the creation of a process to ring 3, in src/userland.rs and src/gdt.rs.
use apogee.Base.{
  Bool-cases, inr, inl, ◌==◌, ℕ, ◌%◌, ◌≡◌, ◌≢◌, refl, List, true, none, some, bit_and,
  bit_and_three, ==_iff, arith,
}
use apogee.Base.Maps.{lookup, lookup-insert}
use apogee.Thread
use apogee.Thread.{KernelThread, current_process}
use apogee.Thread.Steps.{spawn-add_thread}
use apogee.Process
use apogee.Process.{Process, to_snapshot, ready}
use apogee.Keyboard.{Crates}
use apogee.Kernel.{Machine, Moment, create, register}
use apogee.Kernel.Lifecycle.{snapshot_self}
use apogee.Syscall.{user_code_base, user_stack_top}
use apogee.Interrupts.{InterruptStackFrame, faulted_in_ring3}
use apogee.Gdt.{DescriptorTables, TaskStateSegment, Selectors, selectors, user_code_segment}
use apogee.Paging.{Paging}
use apogee.Userland.{
  created, Setup, create_process_from_program, enter_userland, spawn_user_thread, user_thread_entry,
}
use apogee.Userland.Create.{HasProcess, create_process_from_program-CreateOutcome}

-- An interrupt in user code is told apart from one in the kernel.
selectors-faulted_in_ring3 :
    (tables : DescriptorTables) (segment : TaskStateSegment) (f : InterruptStackFrame)
    → f.code_segment ≡ (selectors tables segment).user_code
    → faulted_in_ring3 f ≡ true
unfolding selectors faulted_in_ring3
selectors-faulted_in_ring3 tables segment f h =
    let three : (selectors tables segment).user_code % 4 ≡ 3 =
      tables.add_entry-privilege _ user_code_segment in
    (==_iff (bit_and f.code_segment 3) 3).1 (omega (arith, h, bit_and_three f.code_segment, three))

module _ (c : Crates) (m : Machine c) (now : Moment) (sels : Selectors) where
  -- The thread of a registered process jumps to where its descriptor says.
  pub user_thread_entry_lem :
      (pid : ℕ) (proc : Process)
      → current_process m.threads ≡ pid
      → lookup pid m.processes ≡ some proc
      → user_thread_entry c m now sels
        ≡ some (enter_userland sels proc.user_entry proc.user_stack_top)
  unfolding user_thread_entry to_snapshot
  user_thread_entry_lem pid proc is_pid found =
      rw (is_pid, user_thread_entry, snapshot_self c m now pid proc found) refl

-- The descriptor that `create` registers.
abbrev pub descriptor : ℕ → ℕ → ℕ → Process
descriptor pid entry stack_top = record {
  pid = pid;
  page_table_root = none;
  user_entry = entry;
  user_stack_top = stack_top;
  state = ready;
}

pub create_here :
    (c : Crates) (m : Machine c) (entry stack_top : ℕ)
    → lookup (create c m entry stack_top).1 (create c m entry stack_top).0.processes
      ≡ some (descriptor (create c m entry stack_top).1 entry stack_top)
unfolding create register Process.new
create_here c m entry stack_top =
    ground (
      arith,
      lookup-insert m.next_pid m.next_pid (descriptor m.next_pid entry stack_top) m.processes,
    )

lookup-create :
    (c : Crates) (m u : Machine c) (entry stack_top pid : ℕ)
    → create c m entry stack_top ≡ (u, pid)
    → lookup pid u.processes ≡ some (descriptor pid entry stack_top)
lookup-create c m u entry stack_top pid h = rw h at (create_here c m entry stack_top)

-- The machine with a thread running.
abbrev pub running_on : {c : Crates} → Machine c → ℕ → Machine c
running_on m id = record m {
  threads = record m.threads { sched = record m.threads.sched { current = id } };
}

host_process :
    (t : Thread.Threads) (pid : ℕ) (now : Moment)
    → t.next_id ≢ 0
    → current_process (record (Thread.add_thread t pid now.stack now.initial_rsp).0 {
      sched = record (Thread.add_thread t pid now.stack now.initial_rsp).0.sched {
        current = t.next_id;
      };
    })
      ≡ pid
unfolding current_process Thread.add_thread
host_process t pid now real =
    let thread : KernelThread = record {
      id = t.next_id;
      process = pid;
      rsp = now.initial_rsp;
      stack = now.stack;
    } in
    ground (arith, lookup-insert t.next_id t.next_id thread t.sched.threads)

-- The machine with a host thread for `pid`.
abbrev pub with_host : {c : Crates} → Machine c → ℕ → Moment → Machine c
with_host m pid now = record m {
  threads = (Thread.add_thread m.threads pid now.stack now.initial_rsp).0;
}

pub spawn_user_thread-with_host :
    (c : Crates) (m : Machine c) (pid : ℕ) (now : Moment)
    → now.stack ≢ 0
    → spawn_user_thread c m now pid ≡ some (with_host m pid now)
unfolding spawn_user_thread
spawn_user_thread-with_host c m pid now there =
    rw (spawn-add_thread m.threads pid now.stack now.initial_rsp there, spawn_user_thread) refl

hosts_spawned :
    (c : Crates) (m u : Machine c) (pid : ℕ) (now : Moment)
    → spawn_user_thread c m now pid ≡ some u
    → u ≡ with_host m pid now
unfolding spawn_user_thread Thread.spawn
hosts_spawned c m u pid now h = elim (Bool-cases (now.stack == 0)) [
  | inl null ↦ absurd (ground arith)
  | inr there ↦
      let added : some (with_host m pid now) ≡ some u = rw (there, spawn_user_thread) at h in
      ground arith
]

module _ (p : Paging) (c : Crates) (tables : DescriptorTables) (segment : TaskStateSegment) where
  abbrev sels : Selectors
  sels = selectors tables segment

  -- When a process was created and its thread spawned, under an id that is not 0, that thread, once
  -- it runs, pops the frame of the first byte of the program, of the stack pointer at the top of
  -- the stack page, of interrupts enabled and of the selectors of user code and data, under which a
  -- fault is one of ring 3.
  pub user_thread_entry-create :
      (s u : Setup p c) (m : Machine c) (now later : Moment) (program : List ℕ) (pid : ℕ)
      → create_process_from_program p c s now program ≡ (u, created pid)
      → u.machine.threads.next_id ≢ 0
      → spawn_user_thread c u.machine now pid ≡ some m
      → (user_thread_entry c (running_on m u.machine.threads.next_id) later sels
          ≡ some (record {
            rip = user_code_base;
            cs = sels.user_code;
            rflags = 0x202;
            rsp = user_stack_top;
            ss = sels.user_data;
          }))
        × ((f : InterruptStackFrame) → f.code_segment ≡ sels.user_code → faulted_in_ring3 f ≡ true)
  unfolding enter_userland
  user_thread_entry-create s u m now later program pid h real spawned =
      let done : HasProcess p c s u program pid =
        rw h at (create_process_from_program-CreateOutcome p c s now program) in
      let hosting = hosts_spawned c u.machine m pid now spawned in
      let id = u.machine.threads.next_id in
      (
        rw hosting (
            user_thread_entry_lem c (running_on (with_host u.machine pid now) id) later sels pid
              (descriptor pid user_code_base user_stack_top)
              (host_process u.machine.threads pid now real)
              (lookup-create c s.machine u.machine user_code_base user_stack_top pid
                done.registered)),
        selectors-faulted_in_ring3 tables segment,
      )
