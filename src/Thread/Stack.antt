-- ===== src/Thread/Stack.antt =====
-- src/thread.rs: the first stack of a kernel thread (`KernelThread::new`) and `switch_context`.
-- Memory is a function from the address of a 64-bit slot to its value. The two contexts are the
-- arguments and results `rsp` of a switch, since they lie in the scheduler and not on a stack.
pub mod Switch
mod Tests
use apogee.Base.{ℕ, zero, suc, ◌*◌, ◌==◌, if◌then◌else◌, add64, sub64, not64, bit_and}

abbrev pub stack_size : ℕ
stack_size = 16 * 1024

abbrev pub Memory : Type 0
Memory = ℕ → ℕ

abbrev pub write : Memory → ℕ → ℕ → Memory
write mem addr value x = if x == addr then value else mem x

-- A stack pointer, and the memory that it points into.
pub record Stack : Type 0 where
  pub sp : ℕ
  pub mem : Memory

unfoldable pub push : Stack → ℕ → Stack
unfolding sub64
push s value = record { sp = sub64 s.sp 8; mem = write s.mem (sub64 s.sp 8) value }

unfoldable pub push_zeros : ℕ → Stack → Stack
unfolding push
push_zeros zero s = s
push_zeros (suc n) s = push_zeros n (push s 0)

-- The entry address under six zero slots, from the aligned top of the buffer at `base`.
unfoldable pub initial_stack : ℕ → ℕ → Memory → Stack
unfolding push push_zeros add64 not64
initial_stack base entry mem =
    let top = bit_and (add64 base stack_size) (not64 0xf) in
    push_zeros 6 (push (record { sp = top; mem = mem }) entry)

-- The registers that a call keeps.
pub record Saved : Type 0 where
  pub rbp : ℕ
  pub rbx : ℕ
  pub r12 : ℕ
  pub r13 : ℕ
  pub r14 : ℕ
  pub r15 : ℕ

-- The six pushes of `switch_context`; the stack pointer that results is stored in `prev`.
unfoldable pub switch_out : Saved → Stack → Stack
unfolding push
switch_out r s = push (push (push (push (push (push s r.rbp) r.rbx) r.r12) r.r13) r.r14) r.r15

-- Where a switch arrives.
pub record Resumed : Type 0 where
  pub registers : Saved
  pub rsp : ℕ
  pub rip : ℕ

-- The six pops and the `ret`, from the stack pointer loaded from `next`.
unfoldable pub switch_in : ℕ → Memory → Resumed
unfolding add64
switch_in sp mem = record {
  registers = record {
    r15 = mem sp;
    r14 = mem (add64 sp 8);
    r13 = mem (add64 sp 16);
    r12 = mem (add64 sp 24);
    rbx = mem (add64 sp 32);
    rbp = mem (add64 sp 40);
  };
  rip = mem (add64 sp 48);
  rsp = add64 sp 56;
}
