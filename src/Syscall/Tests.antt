-- ===== src/Syscall/Tests.antt =====
-- System calls of a process whose host thread runs.
use apogee.Base.{
  ℕ, ◌≡◌, ◌+◌, ◌≤◌, ◌<◌, refl, ◌≢◌, ◌↔◌, [], ◌∷◌, Option, none, some, checked_add, ltb,
  if◌then◌else◌, arith,
}
use apogee.Scheduler
use apogee.Thread.{KernelThread, current_process}
use apogee.Thread.Consistent.{IsConsistent}
use apogee.Process.{Process, ready}
use apogee.Allocator.FixedSizeBlock
use apogee.Keyboard.{uninit}
use apogee.Keyboard.ListQueue.{list_crates}
use apogee.Kernel.{Machine, Moment}
use apogee.Kernel.Abi.{bad_pointer, bad_handle, errno}
use apogee.Syscall.{SyscallFrame, returns, left, faults, bytes_at, user_bytes, syscall_dispatch}
use apogee.Syscall.Window.{IsUserRange, IsReadable, user_bytes-IsUserRange}
use apogee.Syscall.Dispatch.{Writes, write-dispatch, HasLeft, exit-dispatch}

abbrev shell : Process
shell = record {
  pid = 1;
  page_table_root = none;
  user_entry = 0x4000_0000_0000;
  user_stack_top = 0x4000_0000_3000;
  state = ready;
}

abbrev host : KernelThread
host = record { id = 1; process = 1; rsp = 0x5000; stack = 0x4000 }

abbrev machine : Machine list_crates
machine = record {
  processes = (1, shell) ∷ [];
  next_pid = 2;
  threads = record {
    sched = record {
      threads = (1, host) ∷ [];
      ready = 0 ∷ [];
      current = 1;
      bootstrap_rsp = 0x100;
      reaper = none;
    };
    next_id = 2;
    counters = record Scheduler.new {
      threads_alive = 1;
      threads_spawned = 1;
      processes_alive = 1;
      processes_spawned = 1;
    };
  };
  allocator = FixedSizeBlock.empty;
  keyboard = uninit list_crates;
  writer = record {
    column_position = 0;
    color_code = 7;
    buffer = λ r k. record { ascii_character = 0x20; color_code = 7 };
  };
}

abbrev now : Moment
now = record { rsp = 0x4f00; stack = 0x8000; initial_rsp = 0xbf00 }

-- Of the window the code page and the stack page are mapped.
abbrev mem : ℕ → Option ℕ
mem x =
    if ltb x 0x4000_0000_1000 then some 0x41 else if ltb x 0x4000_0000_2000 then none else some 0x41

abbrev frame : SyscallFrame
frame = record {
  r15 = 0;
  r14 = 0;
  r13 = 0;
  r12 = 0;
  r11 = 0;
  r10 = 0;
  r9 = 0;
  r8 = 0;
  rdi = 1;
  rsi = 0x4000_0000_0020;
  rbp = 0;
  rbx = 0;
  rdx = 3;
  rcx = 0;
  rax = 1;
  rip = 0x4000_0000_001c;
  cs = 0x33;
  rflags = 0x202;
  user_rsp = 0x4000_0000_3000;
  user_ss = 0x2b;
}

threads-IsConsistent : IsConsistent machine.threads
threads-IsConsistent = record {
  places = λ x. ground arith;
  single = λ x. ground arith;
  fresh = λ x h. ground arith;
  positive = omega arith;
  alive = refl;
}

-- A byte between the code page and the stack page passes the check.
unmapped_accepted : user_bytes mem 0x4000_0000_1000 1 ≡ some (none ∷ [])
unfolding user_bytes bytes_at checked_add
unmapped_accepted = refl

user_bytes-IsUserRange_example :
    (user_bytes mem 0x4000_0000_2fff 1 ≡ some (some 0x41 ∷ []))
    ↔ (IsUserRange 0x4000_0000_2fff 1 × (bytes_at mem 0x4000_0000_2fff 1 ≡ some 0x41 ∷ []))
user_bytes-IsUserRange_example = user_bytes-IsUserRange mem 0x4000_0000_2fff 1 (some 0x41 ∷ [])

write-dispatch_example :
    (frame.rdi ≡ 1
      → IsUserRange 0x4000_0000_0020 3
      → IsReadable mem 0x4000_0000_0020 3
      → Writes machine mem frame (syscall_dispatch list_crates machine now mem frame))
    × (frame.rdi ≡ 1
        → IsUserRange 0x4000_0000_0020 3
        → (a : ℕ) → 0x4000_0000_0020 ≤ a
        → a < 0x4000_0000_0020 + 3
        → mem a ≡ none
        → syscall_dispatch list_crates machine now mem frame ≡ faults)
    × (frame.rdi ≡ 1
        → (IsUserRange 0x4000_0000_0020 3 → ⊥)
        → syscall_dispatch list_crates machine now mem frame ≡ returns machine (errno bad_pointer))
    × (frame.rdi ≢ 1
        → syscall_dispatch list_crates machine now mem frame ≡ returns machine (errno bad_handle))
write-dispatch_example = write-dispatch list_crates machine now mem frame refl

-- That buffer is mapped; one in the page between the code and the stack is not.
frame-IsReadable : IsReadable mem 0x4000_0000_0020 3
frame-IsReadable a low high unmapped = ground arith

unmapped_write :
    syscall_dispatch list_crates machine now mem (record frame { rsi = 0x4000_0000_1000 }) ≡ faults
unmapped_write =
    (write-dispatch list_crates machine now mem (record frame { rsi = 0x4000_0000_1000 }) refl).1
      refl (omega arith, omega arith, omega arith) 0x4000_0000_1000 (omega arith) (omega arith) refl

exit-dispatch_example :
    (u : Machine list_crates) × (syscall_dispatch list_crates machine now mem
        (record frame { rax = 0 })
      ≡ left u)
    × HasLeft machine (current_process machine.threads) u
exit-dispatch_example =
    exit-dispatch list_crates machine now threads-IsConsistent (omega arith) (λ x. ground arith) mem
      (record frame { rax = 0 }) refl
