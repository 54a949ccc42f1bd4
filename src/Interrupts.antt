-- ===== src/Interrupts.antt =====
-- src/interrupts.rs: the handlers of the interrupt descriptor table, on the state of the kernel.
-- The text that a handler prints of its stack frame is formatted by the x86_64 crate, and is a
-- parameter; so is the byte that the keyboard's port holds.
pub mod Faults
pub mod Survival
mod Tests
use apogee.Base.{
  ℕ, ◌+◌, ◌-◌, ◌^◌, List, [], ◌∷◌, Bool, bit_and, Option, none, some, ◌==◌, if◌then◌else◌,
}
use apogee.Thread.{current_process}
use apogee.Keyboard.{Crates}
use apogee.Kernel.{Machine, Moment, answers, never_returns, panics, call, on_tick, on_scancode}
use apogee.Kernel.Abi.{user, process_exit}
use apogee.Syscall
use apogee.Syscall.{Outcome, left, failed, faults, exit_host_thread, SyscallFrame, syscall_dispatch}
use apogee.Vga.{write_string}

abbrev pub pic_1_offset : ℕ
pic_1_offset = 32

abbrev pub pic_2_offset : ℕ
pic_2_offset = pic_1_offset + 8

abbrev pub syscall_vector : ℕ
syscall_vector = 0x80

pub data InterruptIndex : Type 0 where
  timer : InterruptIndex
  keyboard : InterruptIndex

abbrev pub as_u8 : InterruptIndex → ℕ
as_u8 timer = pic_1_offset
as_u8 keyboard = pic_1_offset + 1

pub record InterruptStackFrame : Type 0 where
  pub instruction_pointer : ℕ
  pub code_segment : ℕ
  pub cpu_flags : ℕ
  pub stack_pointer : ℕ
  pub stack_segment : ℕ

unfoldable pub faulted_in_ring3 : InterruptStackFrame → Bool
faulted_in_ring3 stack_frame = bit_and stack_frame.code_segment 3 == 3

-- How a handler ends: it returns to what was interrupted, with the vectors that it acknowledged; on
-- another thread, with the interrupted one gone; or in a panic.
pub data Handled (c : Crates) : Type 0 where
  resumes : Machine c → List ℕ → Handled c
  ended : Machine c → Handled c
  panicked : Handled c

-- What the processor takes an interrupt for.
pub data Interrupt : Type 0 where
  -- `int3`
  breakpoint : InterruptStackFrame → List ℕ → Interrupt
  double_fault : Interrupt
  page_fault : InterruptStackFrame → List ℕ → Interrupt
  general_protection_fault : InterruptStackFrame → List ℕ → Interrupt
  timer_fired : Interrupt
  key_event : ℕ → Interrupt
  system_call : SyscallFrame → (ℕ → Option ℕ) → Interrupt

module _ (c : Crates) where
  -- The code -1 of type `i32`.
  unfoldable pub kill_faulting_process : Machine c → Moment → Outcome c
  kill_faulting_process m now =
      let pid = current_process m.threads in
      if pid == 0 then failed else elim (call c m now (user pid) (process_exit pid (2 ^ 32 - 1))) [
        | answers after response ↦ exit_host_thread c after
        | never_returns after ↦ left after
        | panics ↦ failed
      ]

  -- `println!`
  abbrev pub println : Machine c → List ℕ → Machine c
  println m text = record m { writer = write_string m.writer text }

  -- On a page fault of ring 0 `page_fault_handler` panics, whatever else its frame holds.
  abbrev pub outcome : Outcome c → Handled c
  outcome (Syscall.returns m value) = resumes m []
  outcome (left m) = ended m
  outcome failed = panicked
  outcome faults = panicked

  unfoldable pub gpf_handler : Machine c → Moment → InterruptStackFrame → List ℕ → Handled c
  gpf_handler m now stack_frame text =
      let shown : Machine c = println m text in
      if faulted_in_ring3 stack_frame then outcome (kill_faulting_process shown now) else panicked

  unfoldable pub page_fault_handler : Machine c → Moment → InterruptStackFrame → List ℕ → Handled c
  page_fault_handler m now stack_frame text =
      let shown : Machine c = println m text in
      if faulted_in_ring3 stack_frame then outcome (kill_faulting_process shown now) else panicked

  unfoldable pub breakpoint_handler : Machine c → List ℕ → Handled c
  breakpoint_handler m text = resumes (println m text) []

  unfoldable pub double_fault_handler : Machine c → Handled c
  double_fault_handler m = panicked

  unfoldable pub timer_interrupt_handler : Machine c → Handled c
  timer_interrupt_handler m = resumes (on_tick c m) (as_u8 timer ∷ [])

  unfoldable pub keyboard_interrupt_handler : Machine c → ℕ → Handled c
  keyboard_interrupt_handler m scancode = resumes (on_scancode c m scancode) (as_u8 keyboard ∷ [])

  -- The table `IDT`. The gate of the breakpoint is not opened to ring 3, as that of the system call
  -- is, so that the processor raises a general protection fault when a process executes `int3`.
  unfoldable pub handle : Machine c → Moment → Interrupt → Handled c
  handle m now (breakpoint stack_frame text) =
      if faulted_in_ring3 stack_frame
      then gpf_handler m now stack_frame text
      else breakpoint_handler m text
  handle m now double_fault = double_fault_handler m
  handle m now (page_fault stack_frame text) = page_fault_handler m now stack_frame text
  handle m now (general_protection_fault stack_frame text) = gpf_handler m now stack_frame text
  handle m now timer_fired = timer_interrupt_handler m
  handle m now (key_event scancode) = keyboard_interrupt_handler m scancode
  handle m now (system_call frame mem) = outcome (syscall_dispatch c m now mem frame)
