-- ===== src/Syscall.antt =====
-- src/syscall.rs: the ring-3 system calls over `Kernel::call`. User memory is a function from an
-- address to the byte there, which is none where no page is mapped: a read there is a page fault of
-- ring 0. The `int 0x80` stub is in Stub; logging is left out.
pub mod Window
pub mod Dispatch
pub mod Stub
mod Tests
use apogee.Base.{
  ℕ, zero, suc, ◌+◌, ◌^◌, ◌%◌, Bool, true, false, List, [], ◌∷◌, ◌||◌, Option, none, some, ltb,
  ◌==◌, if◌then◌else◌, checked_add,
}
use apogee.Thread
use apogee.Thread.{current_process}
use apogee.Keyboard.{Crates}
use apogee.Kernel.{Machine, Moment, Answer, answers, never_returns, panics, continue, call}
use apogee.Kernel.Abi.{
  Caller, user, SysError, bad_handle, bad_pointer, would_block, unsupported, errno, process_exit,
  thread_yield, input_read_byte, console_write, Response, ok, written, byte, err,
}

pub record SyscallFrame : Type 0 where
  pub r15 : ℕ
  pub r14 : ℕ
  pub r13 : ℕ
  pub r12 : ℕ
  pub r11 : ℕ
  pub r10 : ℕ
  pub r9 : ℕ
  pub r8 : ℕ
  pub rdi : ℕ
  pub rsi : ℕ
  pub rbp : ℕ
  pub rbx : ℕ
  pub rdx : ℕ
  pub rcx : ℕ
  pub rax : ℕ
  pub rip : ℕ
  pub cs : ℕ
  pub rflags : ℕ
  pub user_rsp : ℕ
  pub user_ss : ℕ

abbrev pub stdout : ℕ
stdout = 1

abbrev pub max_user_io : ℕ
max_user_io = 4096

abbrev pub user_code_base : ℕ
user_code_base = 0x4000_0000_0000

abbrev pub user_stack_top : ℕ
user_stack_top = 0x4000_0000_3000

-- `slice::from_raw_parts`, which reads nothing: an element is what a read of it gives.
unfoldable pub bytes_at : (ℕ → Option ℕ) → ℕ → ℕ → List (Option ℕ)
bytes_at mem ptr zero = []
bytes_at mem ptr (suc len) = mem ptr ∷ bytes_at mem (suc ptr) len

unfoldable pub user_bytes : (ℕ → Option ℕ) → ℕ → ℕ → Option (List (Option ℕ))
unfolding checked_add
user_bytes mem ptr len = elim (ltb max_user_io len) [
  | true ↦ none
  | false ↦ elim (checked_add ptr len) [
    | none ↦ none
    | some end ↦ elim (ltb ptr user_code_base || ltb user_stack_top end) [
      | true ↦ none
      | false ↦ some (bytes_at mem ptr len)
    ]
  ]
]

-- The bytes of a slice, read one after the other; none when a read faults.
unfoldable pub read_bytes : List (Option ℕ) → Option (List ℕ)
read_bytes [] = some []
read_bytes (none ∷ slice) = none
read_bytes (some b ∷ slice) = elim (read_bytes slice) [
  | none ↦ none
  | some bytes ↦ some (b ∷ bytes)
]

-- How a system call ends: with the value of `rax`, as an `Answer` does that is no response, or in a
-- page fault of the kernel.
pub data Outcome (c : Crates) : Type 0 where
  returns : Machine c → ℕ → Outcome c
  left : Machine c → Outcome c
  failed : Outcome c
  faults : Outcome c

module _ (c : Crates) where
  -- A `match` on the response of a call.
  unfoldable pub match_answer : Answer c → (Response → ℕ) → Outcome c
  match_answer (answers m response) value = returns m (value response)
  match_answer (never_returns m) value = left m
  match_answer panics value = failed

  unfoldable pub exit_host_thread : Machine c → Outcome c
  exit_host_thread m =
      match_answer (continue c m (Thread.exit_thread m.threads) never_returns) (λ response. 0)

  -- The caller is always a process here; the response of the call is ignored.
  unfoldable pub sys_exit : Machine c → Moment → ℕ → ℕ → Outcome c
  sys_exit m now pid code = elim (call c m now (user pid) (process_exit pid code)) [
    | answers after response ↦ exit_host_thread after
    | never_returns after ↦ left after
    | panics ↦ failed
  ]

  unfoldable pub write_value : Response → ℕ
  write_value (written n) = n
  write_value (err e) = errno e
  write_value _ = errno unsupported

  -- The console reads the slice byte by byte while it prints. A fault ends the call, and of what is
  -- printed then no state is kept.
  unfoldable pub sys_write : Machine c → Moment → (ℕ → Option ℕ) → Caller → SyscallFrame → Outcome c
  sys_write m now mem caller frame = elim (frame.rdi == stdout) [
    | false ↦ returns m (errno bad_handle)
    | true ↦ elim (user_bytes mem frame.rsi frame.rdx) [
      | none ↦ returns m (errno bad_pointer)
      | some slice ↦ elim (read_bytes slice) [
        | none ↦ faults
        | some bytes ↦ match_answer (call c m now caller (console_write bytes)) write_value
      ]
    ]
  ]

  unfoldable pub read_value : Response → ℕ
  read_value (byte (some b)) = b
  read_value (byte none) = errno would_block
  read_value (err e) = errno e
  read_value _ = errno unsupported

  unfoldable pub sys_read : Machine c → Moment → Caller → Outcome c
  sys_read m now caller = match_answer (call c m now caller input_read_byte) read_value

  unfoldable pub yield_value : Response → ℕ
  yield_value ok = 0
  yield_value (err e) = errno e
  yield_value _ = errno unsupported

  unfoldable pub sys_yield : Machine c → Moment → Caller → Outcome c
  sys_yield m now caller = match_answer (call c m now caller thread_yield) yield_value

  -- `syscall_dispatch`; the value is written to `frame.rax`.
  unfoldable pub syscall_dispatch : Machine c → Moment → (ℕ → Option ℕ) → SyscallFrame → Outcome c
  syscall_dispatch m now mem frame =
      let pid = current_process m.threads in
      if frame.rax == 0
      then sys_exit m now pid (frame.rdi % 2 ^ 32)
      else if frame.rax == 1
      then sys_write m now mem (user pid) frame
      else if frame.rax == 2
      then sys_read m now (user pid)
      else if frame.rax == 3
      then sys_yield m now (user pid)
      else returns m (errno unsupported)

  -- The frame that is restored to ring 3 with the value.
  abbrev pub resume : SyscallFrame → ℕ → SyscallFrame
  resume frame value = record frame { rax = value }
