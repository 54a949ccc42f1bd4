-- ===== src/Kernel/Registry.antt =====
-- The process registry of src/kernel/service.rs over any request.
use apogee.Base.{
  none, ℕ, ◌+◌, ◌%◌, ◌≤◌, ◌<◌, ◌≡◌, refl, ◌∙◌, inl, inr, Bool, true, false, some, length, word,
  add64, sub64, Option-cases, Bool-cases, ◌==◌, arith,
}
use apogee.Base.Maps.{
  lookup, keys, count, IsMap, insert-IsMap, remove-IsMap, length-insert_new, length-remove,
  count-insert_new, count-remove, count-keys, lookup-insert, lookup-remove_ne, lookup-remove_self,
}
use apogee.Scheduler.{note_process_spawned, note_process_exited, note_thread_spawned}
use apogee.Thread
use apogee.Thread.{
  Threads, ThreadScheduler, Outcome, save_context, drain_reaper, rotate, yield_now, has_context,
  park, exit_thread, add_thread,
}
use apogee.Process
use apogee.Process.{Process, ready}
use apogee.Keyboard.{Crates, Keyboard}
use apogee.Vga.{Writer}
use apogee.Kernel.{
  Machine, Moment, Answer, answers, never_returns, panics, register, create, exit, continue,
  is_kernel, may_name, spawn, call,
}
use apogee.Kernel.Alive.{Kept, yield_now-Kept, exit_thread-Kept}
use apogee.Kernel.Abi.{
  Caller, kernel, Request, process_create, process_exit, process_snapshot, process_count, thread,
  thread_spawn, thread_yield, thread_exit, scheduler_stats, memory_stats, timer_ticks,
  input_read_byte, console_write, ok,
}

-- The registry is a map from pids to their descriptors, the live counter is its size, and the next
-- pid, which is not 0, is above all that are in use.
pub record IsRegistry {c : Crates} (m : Machine c) : Type 0 where
  pub single : IsMap m.processes
  pub keyed : (pid : ℕ) (p : Process) → lookup pid m.processes ≡ some p → p.pid ≡ pid
  pub alive : m.threads.counters.processes_alive ≡ length m.processes % word
  pub fresh : (x : ℕ) → m.next_pid ≤ x → count x (keys m.processes) ≡ 0
  pub positive : 1 ≤ m.next_pid

module _ (c : Crates) where
  create-IsRegistry :
      (m : Machine c) (entry stack_top : ℕ)
      → m.next_pid + 1 < word
      → IsRegistry m
      → IsRegistry (create c m entry stack_top).0
  unfolding create register Process.new note_process_spawned add64
  create-IsRegistry m entry stack_top h v =
      let p : Process = (Process.new m.next_pid entry stack_top).0 in
      let new : count m.next_pid (keys m.processes) ≡ 0 = v.fresh m.next_pid (omega arith) in
      record {
        single = insert-IsMap m.next_pid p m.processes v.single;
        keyed =
            λ pid q e. ground (arith, v.keyed pid q, lookup-insert m.next_pid pid p m.processes);
        alive = ground (arith, v.alive, length-insert_new m.next_pid p m.processes new);
        fresh = λ x k. ground (arith, v.fresh x, count-insert_new x m.next_pid p m.processes new);
        positive = omega (arith, v.positive);
      }

  exit-IsRegistry :
      (m : Machine c) (pid status : ℕ) → IsRegistry m → IsRegistry (exit c m pid status).0
  unfolding exit note_process_exited sub64
  exit-IsRegistry m pid status v = elim (Option-cases (lookup pid m.processes)) [
    | inl missing ↦ rw (missing, exit) v
    | inr (p, found) ↦
        let here : 0 < count pid (keys m.processes) = count-keys pid p m.processes found in
        rw (found, exit)
          (record {
            single = remove-IsMap pid m.processes v.single;
            keyed = λ other q e. elim (Bool-cases (pid == other)) [
              | inl same ↦ absurd (ground (arith, lookup-remove_self pid m.processes v.single))
              | inr apart ↦ v.keyed other q (ground (arith, lookup-remove_ne pid other m.processes))
            ];
            alive = ground (arith, v.alive, length-remove pid m.processes here);
            fresh = λ x k. ground (arith, v.fresh x k, count-remove x pid m.processes);
            positive = v.positive;
          })
  ]

  -- The registry of the state that a call leaves, on whatever thread it goes on.
  abbrev pub Leaves : (Machine c → Type 0) → Answer c → Type 0
  Leaves P (answers after response) = P after
  Leaves P (never_returns after) = P after
  Leaves P panics = Unit

  with_threads :
      (m : Machine c) (t : Threads)
      → t.counters.processes_alive ≡ m.threads.counters.processes_alive
      → IsRegistry m
      → IsRegistry {c = c} (record m { threads = t })
  with_threads m t e v = record {
    single = v.single;
    keyed = v.keyed;
    alive = e ∙ v.alive;
    fresh = v.fresh;
    positive = v.positive;
  }

  continue-IsRegistry :
      (m : Machine c) (o : Outcome) (f : Machine c → Answer c)
      → Kept m.threads o
      → IsRegistry m
      → ((after : Machine c) → IsRegistry after → Leaves IsRegistry (f after))
      → Leaves IsRegistry (continue c m o f)
  continue-IsRegistry m (Outcome.running t) f k v h =
      h (record m { threads = t }) (with_threads m t k v)
  continue-IsRegistry m Outcome.panicked f k v h = tt

  keep :
      {k : Keyboard c} {w : Writer} (m : Machine c)
      → IsRegistry m
      → IsRegistry {c = c} (record m { keyboard = k; writer = w })
  keep m v = record {
    single = v.single;
    keyed = v.keyed;
    alive = v.alive;
    fresh = v.fresh;
    positive = v.positive;
  }

  -- A call that is refused leaves the registry.
  guarded :
      (m : Machine c) (b : Bool) (refused granted : Answer c)
      → Leaves IsRegistry refused
      → Leaves IsRegistry granted
      → Leaves IsRegistry (elim b [ false ↦ refused | true ↦ granted ])
  guarded m true refused granted v w = w
  guarded m false refused granted v w = v

  spawn-IsRegistry :
      (m : Machine c) (now : Moment) (entry tag : ℕ)
      → IsRegistry m
      → Leaves IsRegistry (elim (spawn c m now entry tag) [
        | none ↦ panics
        | some (after, id) ↦ answers after (thread id)
      ])
  unfolding spawn Thread.spawn add_thread note_thread_spawned
  spawn-IsRegistry m now entry tag v = elim (Bool-cases (now.stack == 0)) [
    | inl null ↦ rw (null, spawn, Thread.spawn) tt
    | inr there ↦
        rw (there, spawn, Thread.spawn)
          (with_threads m (add_thread m.threads tag now.stack now.initial_rsp).0 refl v)
  ]

  exit-Leaves :
      (m : Machine c) (now : Moment) (pid status : ℕ)
      → IsRegistry m
      → Leaves IsRegistry (call c m now kernel (process_exit pid status))
  unfolding call
  exit-Leaves m now pid status v = elim (Bool-cases (exit c m pid status).1) [
    | inl removed ↦ rw (removed, call) (exit-IsRegistry m pid status v)
    | inr unknown ↦ rw (unknown, call) (exit-IsRegistry m pid status v)
  ]

  -- Every request, by any caller, on whatever thread the call goes on, keeps the registry a map
  -- from pids to their descriptors, with the live counter its size and the next pid above all in
  -- use, as long as the 64-bit pids do not run out.
  pub call-IsRegistry :
      (m : Machine c) (now : Moment) (caller : Caller) (request : Request)
      → m.next_pid + 1 < word
      → IsRegistry m
      → Leaves IsRegistry (call c m now caller request)
  unfolding call
  call-IsRegistry m now caller (process_create entry stack_top) h v =
      guarded m (is_kernel c caller) _ _ v (create-IsRegistry m entry stack_top h v)
  call-IsRegistry m now caller (process_exit pid status) h v =
      guarded m (may_name c caller pid) _ _ v (exit-Leaves m now pid status v)
  call-IsRegistry m now caller (process_snapshot pid) h v =
      guarded m (may_name c caller pid) _ _ v v
  call-IsRegistry m now caller process_count h v = guarded m (is_kernel c caller) _ _ v v
  call-IsRegistry m now caller (thread_spawn entry tag) h v =
      guarded m (is_kernel c caller) _ _ v (spawn-IsRegistry m now entry tag v)
  call-IsRegistry m now caller thread_yield h v =
      continue-IsRegistry m (yield_now m.threads now.rsp) (λ after. answers after ok)
        (yield_now-Kept m.threads now.rsp) v (λ after w. w)
  call-IsRegistry m now caller thread_exit h v =
      continue-IsRegistry m (exit_thread m.threads) never_returns (exit_thread-Kept m.threads) v
        (λ after w. w)
  call-IsRegistry m now caller scheduler_stats h v = v
  call-IsRegistry m now caller memory_stats h v = v
  call-IsRegistry m now caller timer_ticks h v = v
  call-IsRegistry m now caller input_read_byte h v = keep m v
  call-IsRegistry m now caller (console_write bytes) h v = keep m v
