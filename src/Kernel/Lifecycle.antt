-- ===== src/Kernel/Lifecycle.antt =====
-- The life of a process through `Kernel::call` of src/kernel/mod.rs.
use apogee.Base.{
  ℕ, ◌+◌, ◌<◌, ◌≡◌, refl, ◌≢◌, inl, inr, true, some, none, ◌==◌, ==_iff, word, add64, sub64,
  Bool-cases, arith,
}
use apogee.Base.Maps.{
  lookup, insert, remove, lookup-insert, lookup-remove_ne, lookup-remove_self, lookup-none,
  insert-IsMap,
}
use apogee.Scheduler.{note_process_spawned, note_process_exited}
use apogee.Process
use apogee.Process.{Process, to_snapshot, ready}
use apogee.Keyboard.{Crates}
use apogee.Kernel.{Machine, Moment, answers, register, create, exit, find_snapshot, call}
use apogee.Kernel.Abi.{
  kernel, user, process_create, process_exit, process_snapshot, ok, process, snapshot,
}
use apogee.Kernel.Registry.{IsRegistry}

abbrev pub without : {c : Crates} → Machine c → ℕ → Machine c
without m pid = record m {
  processes = remove pid m.processes;
  threads = record m.threads { counters = note_process_exited m.threads.counters };
}

exit_found :
    (c : Crates) (m : Machine c) (pid status : ℕ) (p : Process)
    → lookup pid m.processes ≡ some p
    → exit c m pid status ≡ (without m pid, true)
unfolding exit
exit_found c m pid status p found = rw (found, exit) refl

-- What a registered process gets when it asks about itself.
pub snapshot_self :
    (c : Crates) (m : Machine c) (now : Moment) (pid : ℕ) (p : Process)
    → lookup pid m.processes ≡ some p
    → call c m now (user pid) (process_snapshot pid) ≡ answers m (snapshot (some (to_snapshot p)))
unfolding call
snapshot_self c m now pid p found =
    let seen : find_snapshot c m pid ≡ some (to_snapshot p) =
      unfold find_snapshot in rw (found, find_snapshot) refl in
    rw ((==_iff pid pid).1 refl, seen, call) refl

pub exit_self :
    (c : Crates) (m : Machine c) (now : Moment) (pid status : ℕ) (p : Process)
    → lookup pid m.processes ≡ some p
    → call c m now (user pid) (process_exit pid status) ≡ answers (without m pid) ok
unfolding call
exit_self c m now pid status p found =
    rw ((==_iff pid pid).1 refl, exit_found c m pid status p found, call) refl

module _ (c : Crates) (m : Machine c) (entry stack_top : ℕ) (h : m.next_pid + 1 < word)
    (v : IsRegistry m) where
  abbrev created : Process
  created = record {
    pid = m.next_pid;
    page_table_root = none;
    user_entry = entry;
    user_stack_top = stack_top;
    state = ready;
  }

  abbrev a : Machine c
  a = (create c m entry stack_top).0

  a_processes : a.processes ≡ insert m.next_pid created m.processes
  unfolding create register Process.new
  a_processes = refl

  a_here : lookup m.next_pid a.processes ≡ some created
  a_here = rw a_processes (ground (arith, lookup-insert m.next_pid m.next_pid created m.processes))

  abbrev b : Machine c
  b = without a m.next_pid

  -- Before and after, the same pids are registered with the same descriptors.
  b_same : (x : ℕ) → lookup x b.processes ≡ lookup x m.processes
  b_same x = rw a_processes (elim (Bool-cases (m.next_pid == x)) [
    | inl same ↦ ground (
      arith,
      lookup-remove_self m.next_pid (insert m.next_pid created m.processes)
          (insert-IsMap m.next_pid created m.processes v.single),
      lookup-none x m.processes (v.fresh x (ground arith)),
    )
    | inr apart ↦ ground (
      arith,
      lookup-remove_ne m.next_pid x (insert m.next_pid created m.processes),
      lookup-insert m.next_pid x created m.processes,
    )
  ])

  b_alive : b.threads.counters.processes_alive ≡ m.threads.counters.processes_alive
  unfolding note_process_exited create register note_process_spawned Process.new add64 sub64
  b_alive = omega (arith, v.alive)

  made :
      (now : Moment)
      → call c m now kernel (process_create entry stack_top) ≡ answers a (process m.next_pid)
  unfolding call create register Process.new
  made now = refl

  -- With a sound registry whose pids have not run out, the kernel creates a process under a pid
  -- that is not 0 and that nothing is registered under. The process then sees its own descriptor,
  -- ready at the entry and the stack that it was created with. When it exits, the registry and the
  -- count of live processes are what they were before.
  pub create-exit :
      (n1 n2 n3 : Moment) (status : ℕ)
      → (m.next_pid ≢ 0)
        × (lookup m.next_pid m.processes ≡ none)
        × ((a : Machine c) × (call c m n1 kernel (process_create entry stack_top)
              ≡ answers a (process m.next_pid))
            × (call c a n2 (user m.next_pid) (process_snapshot m.next_pid)
                ≡ answers a (
                    snapshot (
                      some (record {
                        pid = m.next_pid;
                        user_entry = entry;
                        user_stack_top = stack_top;
                        state = ready;
                      }))))
            × ((b : Machine c) × (call c a n3 (user m.next_pid) (process_exit m.next_pid status)
                  ≡ answers b ok)
                × ((x : ℕ) → lookup x b.processes ≡ lookup x m.processes)
                × (b.threads.counters.processes_alive ≡ m.threads.counters.processes_alive)))
  unfolding to_snapshot
  create-exit n1 n2 n3 status = (
    omega (arith, v.positive),
    lookup-none m.next_pid m.processes (v.fresh m.next_pid (omega arith)),
    (
      a,
      made n1,
      snapshot_self c a n2 m.next_pid created a_here,
      (b, exit_self c a n3 m.next_pid status created a_here, b_same, b_alive),
    ),
  )
