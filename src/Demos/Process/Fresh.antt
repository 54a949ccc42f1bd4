-- ===== src/Demos/Process/Fresh.antt =====
-- A fresh kernel on which the tests run the demos of src/demos.rs and the boot of src/main.rs.
use apogee.Base.{ℕ, ◌+◌, refl, [], Option, none, some, ltb, if◌then◌else◌, arith}
use apogee.Base.Maps.{lookup}
use apogee.Scheduler
use apogee.Allocator.FixedSizeBlock
use apogee.Keyboard.{uninit}
use apogee.Keyboard.ListQueue.{list_crates}
use apogee.Kernel.{Machine, Moment}
use apogee.Kernel.Registry.{IsRegistry}
use apogee.Syscall.{SyscallFrame, stdout, user_code_base, user_stack_top}
use apogee.Syscall.Window.{WritesReadable}
use apogee.Paging.Tables.{paging}
use apogee.Gdt.{Selectors, selectors, tss}
use apogee.Gdt.Slots.{descriptor_tables}
use apogee.Userland.{Setup}
use apogee.Demos.Finish.{IsQuiet}

abbrev pub machine : Machine list_crates
machine = record {
  processes = [];
  next_pid = 1;
  threads = record {
    sched = record { threads = []; ready = []; current = 0; bootstrap_rsp = 0x100; reaper = none };
    next_id = 3;
    counters = record Scheduler.new { threads_spawned = 2 };
  };
  allocator = FixedSizeBlock.empty;
  keyboard = uninit list_crates;
  writer = record {
    column_position = 0;
    color_code = 7;
    buffer = λ r k. record { ascii_character = 0x20; color_code = 7 };
  };
}

abbrev pub setup : Setup paging list_crates
setup = record { mapper = []; frames = 0x10000; bytes = λ a. 0; machine = machine }

abbrev pub now : ℕ → Moment
now fuel = record { rsp = 0x4f00 + fuel; stack = 0x8000; initial_rsp = 0xbf00 }

abbrev pub sels : Selectors
sels = selectors descriptor_tables (tss 0x20000 0x30000)

-- The frames of the two system calls of the program.
abbrev pub call : ℕ → ℕ → ℕ → ℕ → SyscallFrame
call rax rdi rsi rdx = record {
  r15 = 0;
  r14 = 0;
  r13 = 0;
  r12 = 0;
  r11 = 0;
  r10 = 0;
  r9 = 0;
  r8 = 0;
  rdi = rdi;
  rsi = rsi;
  rbp = 0;
  rbx = 0;
  rdx = rdx;
  rcx = 0;
  rax = rax;
  rip = user_code_base;
  cs = 0x2b;
  rflags = 0x202;
  user_rsp = user_stack_top;
  user_ss = 0x23;
}

-- Of the window the code page and the stack page are mapped.
abbrev pub bytes : ℕ → Option ℕ
bytes a =
    if ltb a 0x4000_0000_1000 then some 0x68 else if ltb a 0x4000_0000_2000 then none else some 0

-- The write of the demo: its message is in the code page.
abbrev pub write : SyscallFrame
write = call 1 stdout (user_code_base + 45) 19

pub write-WritesReadable : WritesReadable bytes write
write-WritesReadable rax rdi range a low high unmapped = ground arith

pub machine-IsRegistry : IsRegistry machine
unfolding lookup
machine-IsRegistry = record {
  single = λ x. omega arith;
  keyed = λ pid p h. ground arith;
  alive = refl;
  fresh = λ x h. refl;
  positive = omega arith;
}

pub machine-IsQuiet : IsQuiet machine.threads
machine-IsQuiet = record {
  consistent = record {
    places = λ x. refl;
    single = λ x. ground arith;
    fresh = λ x h. refl;
    positive = omega arith;
    alive = refl;
  };
  bootstrap = refl;
  no_ready = refl;
  no_threads = refl;
}
