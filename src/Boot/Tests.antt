-- ===== src/Boot/Tests.antt =====
-- A boot of src/main.rs on a fresh kernel whose startup tasks yield once.
use apogee.Base.{ℕ, zero, suc, ◌+◌, refl, [], ◌∷◌, none, some, arith}
use apogee.Keyboard.ListQueue.{list_crates}
use apogee.Interrupts.{timer_fired, system_call}
use apogee.Paging.Tables.{paging}
use apogee.Task.{Futures, Polled}
use apogee.Demos.Process.Fresh.{
  setup, now, sels, call, bytes, write, write-WritesReadable, machine-IsRegistry, machine-IsQuiet,
}
use apogee.Boot.{Inputs, kernel_main}
use apogee.Boot.Whole.{Boots}
use apogee.Boot.Main.{kernel_main-Boots}

abbrev once : ℕ → ℕ → ℕ → Polled ℕ ℕ
once zero waker w = record { left = none; world = w; wakes = [] }
once (suc n) waker w = record { left = some n; world = w; wakes = waker ∷ [] }

abbrev yielding : Futures
yielding = record { Future = ℕ; World = ℕ; poll = once }

abbrev inputs : Inputs yielding
inputs = record {
  stack_a = record { stack = 0x10000; rsp = 0x13fc8 };
  stack_b = record { stack = 0x14000; rsp = 0x17fc8 };
  rsp = λ fuel. 0x9000 + fuel;
  now = now;
  events = timer_fired ∷ system_call write bytes ∷ system_call (call 0 0 0 0) bytes ∷ [];
  banner = record { art = 0x61 ∷ 0x0a ∷ []; facts = 0x0a ∷ [] };
  example_task = 0;
  print_keypresses = 1;
  world = 0;
  next_task = 0;
  thread_fuel = 10;
  user_fuel = 6;
}

kernel_main-Boots_example :
    Boots paging list_crates yielding inputs setup
      (kernel_main paging list_crates yielding sels inputs setup)
kernel_main-Boots_example =
    kernel_main-Boots paging list_crates yielding sels inputs (call 0 0 0 0) bytes
      (timer_fired ∷ system_call write bytes ∷ []) (omega arith) refl
      (tt, ((ground arith, ground arith, write-WritesReadable), tt)) refl (omega arith)
      (omega arith) (omega arith) (omega arith) (omega arith) setup machine-IsQuiet
      machine-IsRegistry (omega arith)
