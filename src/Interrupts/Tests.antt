-- ===== src/Interrupts/Tests.antt =====
-- The handlers of src/interrupts.rs on a kernel whose process faults right after a timer tick.
use apogee.Base.{◌≡◌, refl, [], ◌∷◌, none, true, arith}
use apogee.Scheduler
use apogee.Thread.{KernelThread, current_process}
use apogee.Thread.Consistent.{IsConsistent}
use apogee.Process.{Process, ready}
use apogee.Allocator.FixedSizeBlock
use apogee.Keyboard.{uninit}
use apogee.Keyboard.ListQueue.{list_crates}
use apogee.Kernel.{Machine, Moment, on_tick}
use apogee.Base.Maps.{IsMap, lookup}
use apogee.Syscall.Dispatch.{HasLeft}
use apogee.Interrupts.{
  InterruptStackFrame, faulted_in_ring3, ended, page_fault, general_protection_fault, handle,
}
use apogee.Interrupts.Faults.{fault-HasLeft}
use apogee.Interrupts.Survival.{InProcess}

abbrev shell : Process
shell = record {
  pid = 1;
  page_table_root = none;
  user_entry = 0x4000_0000_0000;
  user_stack_top = 0x4000_0000_3000;
  state = ready;
}

abbrev host : KernelThread
host = record { id = 1; process = 1; rsp = 0x5000; stack = 0x4000 }

abbrev machine : Machine list_crates
machine = record {
  processes = (1, shell) ∷ [];
  next_pid = 2;
  threads = record {
    sched = record {
      threads = (1, host) ∷ [];
      ready = 0 ∷ [];
      current = 1;
      bootstrap_rsp = 0x100;
      reaper = none;
    };
    next_id = 2;
    counters = record Scheduler.new {
      threads_alive = 1;
      threads_spawned = 1;
      processes_alive = 1;
      processes_spawned = 1;
    };
  };
  allocator = FixedSizeBlock.empty;
  keyboard = uninit list_crates;
  writer = record {
    column_position = 0;
    color_code = 7;
    buffer = λ r k. record { ascii_character = 0x20; color_code = 7 };
  };
}

abbrev now : Moment
now = record { rsp = 0x4f00; stack = 0x8000; initial_rsp = 0xbf00 }

threads-IsConsistent : IsConsistent machine.threads
threads-IsConsistent = record {
  places = λ x. ground arith;
  single = λ x. ground arith;
  fresh = λ x h. ground arith;
  positive = omega arith;
  alive = refl;
}

processes-IsMap : IsMap machine.processes
processes-IsMap x = ground arith

abbrev frame : InterruptStackFrame
frame = record {
  instruction_pointer = 0x4000_0000_000a;
  code_segment = 0x33;
  cpu_flags = 0x202;
  stack_pointer = 0x4000_0000_3000;
  stack_segment = 0x2b;
}

frame_ring : faulted_in_ring3 frame ≡ true
unfolding faulted_in_ring3
frame_ring = refl

machine-InProcess : InProcess machine
unfolding current_process lookup
machine-InProcess = (ground arith, ground arith)

fault-HasLeft_example :
    (u : Machine list_crates) × (handle list_crates machine now (page_fault frame (0x50 ∷ []))
      ≡ ended u)
    × (handle list_crates machine now (general_protection_fault frame (0x50 ∷ [])) ≡ ended u)
    × HasLeft machine (current_process machine.threads) u
fault-HasLeft_example =
    fault-HasLeft list_crates machine now frame (0x50 ∷ []) threads-IsConsistent processes-IsMap
      machine-InProcess.0 machine-InProcess.1 frame_ring

abbrev ticked : Machine list_crates
ticked = on_tick list_crates machine
