-- ===== src/Syscall/Stub/Tests.antt =====
-- The system-call stub of src/syscall.rs on a concrete privilege stack.
use apogee.Base.{◌+◌, ◌%◌, ◌≡◌, refl, arith}
use apogee.Thread.Stack.{Stack}
use apogee.Syscall.Stub.{
  Registers, save_registers, frame_at, write_rax, Returned, restore_registers,
}
use apogee.Syscall.Stub.Restore.{saved, restore_registers-save_registers}

abbrev registers : Registers
registers = record {
  rax = 2;
  rcx = 12;
  rdx = 13;
  rbx = 14;
  rbp = 15;
  rsi = 16;
  rdi = 17;
  r8 = 18;
  r9 = 19;
  r10 = 20;
  r11 = 21;
  r12 = 22;
  r13 = 23;
  r14 = 24;
  r15 = 25;
}

-- The slots that the processor pushed.
abbrev entered : Stack
entered = record { sp = 0x7fd8; mem = λ x. x + 7 }

abbrev back : Returned
back = record {
  registers = record registers { rax = 0x61 };
  rip = 0x7fdf;
  cs = 0x7fe7;
  rflags = 0x7fef;
  rsp = 0x7ff7;
  ss = 0x7fff;
}

restore_registers-save_registers_example :
    (frame_at (save_registers registers entered).mem (save_registers registers entered).sp
      ≡ saved registers entered)
    × ((save_registers registers entered).sp % 16 ≡ 0)
    × (restore_registers (save_registers registers entered).sp (
          write_rax
            (save_registers registers entered).mem
            (save_registers registers entered).sp
            0x61)
        ≡ back)
restore_registers-save_registers_example =
    restore_registers-save_registers registers entered 0x61
      (write_rax (save_registers registers entered).mem (save_registers registers entered).sp 0x61)
      (omega arith) (omega arith) refl (λ x l u. refl)
