-- ===== src/Kernel/Tests.antt =====
-- A kernel with two processes, of which the second has a thread that runs.
use apogee.Base.{ℕ, ◌≡◌, refl, ◌≢◌, [], ◌∷◌, none, some, true, arith}
use apogee.Base.Maps.{lookup}
use apogee.Scheduler
use apogee.Thread.{KernelThread}
use apogee.Process.{Process, ready}
use apogee.Allocator.FixedSizeBlock
use apogee.Keyboard.ListQueue.{list_crates}
use apogee.Keyboard.{uninit}
use apogee.Kernel.{Machine, Moment, answers, call}
use apogee.Kernel.Abi.{
  kernel, user, process_create, process_exit, process_snapshot, ok, process, snapshot,
}
use apogee.Kernel.Authority.{is_denied, Untouched, call-is_denied, call-Untouched}
use apogee.Kernel.Registry.{IsRegistry, Leaves, call-IsRegistry}
use apogee.Kernel.Lifecycle.{create-exit}

abbrev shell : Process
shell = record {
  pid = 1;
  page_table_root = none;
  user_entry = 0x4000_0000_0000;
  user_stack_top = 0x4000_0000_3000;
  state = ready;
}

abbrev editor : Process
editor = record shell { pid = 2 }

abbrev host : KernelThread
host = record { id = 1; process = 2; rsp = 0x5000; stack = 0x4000 }

abbrev machine : Machine list_crates
machine = record {
  processes = (1, shell) ∷ (2, editor) ∷ [];
  next_pid = 3;
  threads = record {
    sched = record {
      threads = (1, host) ∷ [];
      ready = 0 ∷ [];
      current = 1;
      bootstrap_rsp = 0x100;
      reaper = none;
    };
    next_id = 2;
    counters = record Scheduler.new {
      threads_alive = 1;
      threads_spawned = 1;
      processes_alive = 2;
      processes_spawned = 2;
    };
  };
  allocator = FixedSizeBlock.empty;
  keyboard = uninit list_crates;
  writer = record {
    column_position = 0;
    color_code = 7;
    buffer = λ r k. record { ascii_character = 0x20; color_code = 7 };
  };
}

abbrev now : Moment
now = record { rsp = 0x4f00; stack = 0x8000; initial_rsp = 0xbf00 }

machine-IsRegistry : IsRegistry machine
machine-IsRegistry = record {
  single = λ x. ground arith;
  keyed = λ pid p e. unfold lookup in ground arith;
  alive = refl;
  fresh = λ x h. ground arith;
  positive = omega arith;
}

call-is_denied_example : is_denied (call list_crates machine now (user 1) (process_exit 2 0)) ≡ true
call-is_denied_example = call-is_denied list_crates machine now (user 1) (process_exit 2 0)

call-Untouched_example :
    Untouched machine 1 (call list_crates machine now (user 2) (process_exit 2 0))
call-Untouched_example = call-Untouched list_crates machine now 2 1 (process_exit 2 0) (omega arith)

call-IsRegistry_example :
    Leaves list_crates IsRegistry (call list_crates machine now (user 2) (process_exit 2 0))
call-IsRegistry_example =
    call-IsRegistry list_crates machine now (user 2) (process_exit 2 0) (omega arith)
      machine-IsRegistry

create-exit_example :
    (machine.next_pid ≢ 0)
    × (lookup 3 machine.processes ≡ none)
    × ((a : Machine list_crates) × (call list_crates machine now kernel
            (process_create 0x4000_0000_0000 0x4000_0000_3000)
          ≡ answers a (process 3))
        × (call list_crates a now (user 3) (process_snapshot 3)
            ≡ answers a (
                snapshot (
                  some (record {
                    pid = 3;
                    user_entry = 0x4000_0000_0000;
                    user_stack_top = 0x4000_0000_3000;
                    state = ready;
                  }))))
        × ((b : Machine list_crates) × (call list_crates a now (user 3) (process_exit 3 9)
              ≡ answers b ok)
            × ((x : ℕ) → lookup x b.processes ≡ lookup x machine.processes)
            × (b.threads.counters.processes_alive ≡ 2)))
create-exit_example =
    create-exit list_crates machine 0x4000_0000_0000 0x4000_0000_3000 (omega arith)
      machine-IsRegistry now now now 9
