-- ===== src/Userland/Tests.antt =====
-- The process of src/userland.rs that faults on a privileged instruction, created on a fresh kernel.
use apogee.Base.{◌≡◌, ◌≢◌, refl, [], none, some, true, arith, length, get_elem?, ◌+◌}
use apogee.Base.Maps.{lookup, insert}
use apogee.Scheduler
use apogee.Process
use apogee.Allocator.FixedSizeBlock
use apogee.Keyboard.{uninit}
use apogee.Keyboard.ListQueue.{list_crates}
use apogee.Kernel.{Machine, Moment, create, register, call}
use apogee.Syscall.{user_code_base, user_stack_top}
use apogee.Interrupts.{InterruptStackFrame, faulted_in_ring3}
use apogee.Gdt.{TaskStateSegment, selectors, tss}
use apogee.Userland.{
  user_demo, crash_gpf_demo, CreateError, created, failed, Setup, map_user_page, register_process,
  after_stack, after_code, create_process_from_program, user_thread_entry,
}
use apogee.Paging.Tables.{paging}
use apogee.Gdt.Slots.{descriptor_tables}
use apogee.Userland.Create.{CreateOutcome, create_process_from_program-CreateOutcome}
use apogee.Userland.Again.{create-create_process_from_program}
use apogee.Userland.Enter.{
  running_on, with_host, spawn_user_thread-with_host, user_thread_entry-create,
}

abbrev machine : Machine list_crates
machine = record {
  processes = [];
  next_pid = 1;
  threads = record {
    sched = record { threads = []; ready = []; current = 0; bootstrap_rsp = 0x100; reaper = none };
    next_id = 1;
    counters = Scheduler.new;
  };
  allocator = FixedSizeBlock.empty;
  keyboard = uninit list_crates;
  writer = record {
    column_position = 0;
    color_code = 7;
    buffer = λ r k. record { ascii_character = 0x20; color_code = 7 };
  };
}

abbrev now : Moment
now = record { rsp = 0x4f00; stack = 0x8000; initial_rsp = 0xbf00 }

abbrev setup : Setup paging list_crates
setup = record { mapper = []; frames = 0x10000; bytes = λ a. 0; machine = machine }

abbrev after : Setup paging list_crates
after = (create_process_from_program paging list_crates setup now crash_gpf_demo).0

demo_created :
    create_process_from_program paging list_crates setup now crash_gpf_demo ≡ (after, created 1)
unfolding create_process_from_program after_code map_user_page lookup insert after_stack
    register_process call create register Process.new
demo_created = refl

create_process_from_program-CreateOutcome_example :
    CreateOutcome paging list_crates setup crash_gpf_demo
      (create_process_from_program paging list_crates setup now crash_gpf_demo)
create_process_from_program-CreateOutcome_example =
    create_process_from_program-CreateOutcome paging list_crates setup now crash_gpf_demo

create-create_process_from_program_example :
    (w : Setup paging list_crates) × (e : CreateError) × (create_process_from_program paging
        list_crates after now crash_gpf_demo
      ≡ (w, failed e))
    × (w.machine ≡ after.machine)
create-create_process_from_program_example =
    create-create_process_from_program paging list_crates setup after after now now crash_gpf_demo
      crash_gpf_demo 1 demo_created refl

abbrev segment : TaskStateSegment
segment = tss 0x20000 0x30000

thread_id_real : after.machine.threads.next_id ≢ 0
unfolding create_process_from_program after_code map_user_page lookup insert after_stack
    register_process call create register Process.new
thread_id_real = ground arith

abbrev hosting : Machine list_crates
hosting = with_host after.machine 1 now

user_thread_entry-create_example :
    (user_thread_entry list_crates
        (running_on hosting after.machine.threads.next_id)
        now
        (selectors descriptor_tables segment)
      ≡ some (record {
        rip = user_code_base;
        cs = (selectors descriptor_tables segment).user_code;
        rflags = 0x202;
        rsp = user_stack_top;
        ss = (selectors descriptor_tables segment).user_data;
      }))
    × ((f : InterruptStackFrame)
        → f.code_segment ≡ (selectors descriptor_tables segment).user_code
        → faulted_in_ring3 f ≡ true)
user_thread_entry-create_example =
    user_thread_entry-create paging list_crates descriptor_tables segment setup after hosting now
      now crash_gpf_demo 1 demo_created thread_id_real
      (spawn_user_thread-with_host list_crates after.machine 1 now (omega arith))

-- The demo's `lea` and length name its message.
demo_message : get_elem? user_demo 45 ≡ some 0x68
demo_message = refl

demo_length : length user_demo ≡ 45 + 19
demo_length = refl
