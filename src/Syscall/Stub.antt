-- ===== src/Syscall/Stub.antt =====
-- `syscall_isr` of src/syscall.rs: the assembly around `syscall_dispatch`, over the privilege stack.
-- The processor has pushed five slots (rip, cs, rflags, rsp, ss) before the first instruction.
pub mod Restore
mod Tests
use apogee.Base.{ℕ, List, [], ◌∷◌, add64}
use apogee.Thread.Stack.{Memory, Stack, push, write}
use apogee.Syscall.{SyscallFrame}

-- The general-purpose registers but the stack pointer.
pub record Registers : Type 0 where
  pub rax : ℕ
  pub rcx : ℕ
  pub rdx : ℕ
  pub rbx : ℕ
  pub rbp : ℕ
  pub rsi : ℕ
  pub rdi : ℕ
  pub r8 : ℕ
  pub r9 : ℕ
  pub r10 : ℕ
  pub r11 : ℕ
  pub r12 : ℕ
  pub r13 : ℕ
  pub r14 : ℕ
  pub r15 : ℕ

unfoldable pub push_all : List ℕ → Stack → Stack
unfolding push
push_all [] s = s
push_all (value ∷ rest) s = push_all rest (push s value)

-- The order of the fifteen pushes.
abbrev pub pushed : Registers → List ℕ
pushed r =
    r.rax ∷ r.rcx ∷ r.rdx ∷ r.rbx ∷ r.rbp ∷ r.rsi ∷ r.rdi ∷ r.r8 ∷ r.r9 ∷ r.r10 ∷ r.r11 ∷ r.r12
    ∷ r.r13 ∷ r.r14 ∷ r.r15 ∷ []

unfoldable pub save_registers : Registers → Stack → Stack
unfolding push_all
save_registers r s = push_all (pushed r) s

-- The `SyscallFrame` that a pointer points to, field by field as `repr(C)` lays it out.
unfoldable pub frame_at : Memory → ℕ → SyscallFrame
unfolding add64
frame_at mem ptr = record {
  r15 = mem ptr;
  r14 = mem (add64 ptr 8);
  r13 = mem (add64 ptr 16);
  r12 = mem (add64 ptr 24);
  r11 = mem (add64 ptr 32);
  r10 = mem (add64 ptr 40);
  r9 = mem (add64 ptr 48);
  r8 = mem (add64 ptr 56);
  rdi = mem (add64 ptr 64);
  rsi = mem (add64 ptr 72);
  rbp = mem (add64 ptr 80);
  rbx = mem (add64 ptr 88);
  rdx = mem (add64 ptr 96);
  rcx = mem (add64 ptr 104);
  rax = mem (add64 ptr 112);
  rip = mem (add64 ptr 120);
  cs = mem (add64 ptr 128);
  rflags = mem (add64 ptr 136);
  user_rsp = mem (add64 ptr 144);
  user_ss = mem (add64 ptr 152);
}

-- `frame.rax = value` through the pointer.
unfoldable pub write_rax : Memory → ℕ → ℕ → Memory
unfolding add64
write_rax mem ptr value = write mem (add64 ptr 112) value

-- What the fifteen pops and `iretq` load.
pub record Returned : Type 0 where
  pub registers : Registers
  pub rip : ℕ
  pub cs : ℕ
  pub rflags : ℕ
  pub rsp : ℕ
  pub ss : ℕ

-- `pop`: the value at the stack pointer, and the stack pointer after it.
unfoldable pub pop : Memory → ℕ → ℕ × ℕ
unfolding add64
pop mem sp = (mem sp, add64 sp 8)

unfoldable pub restore_registers : ℕ → Memory → Returned
unfolding pop
restore_registers sp mem =
    let (r15, sp) = pop mem sp in
    let (r14, sp) = pop mem sp in
    let (r13, sp) = pop mem sp in
    let (r12, sp) = pop mem sp in
    let (r11, sp) = pop mem sp in
    let (r10, sp) = pop mem sp in
    let (r9, sp) = pop mem sp in
    let (r8, sp) = pop mem sp in
    let (rdi, sp) = pop mem sp in
    let (rsi, sp) = pop mem sp in
    let (rbp, sp) = pop mem sp in
    let (rbx, sp) = pop mem sp in
    let (rdx, sp) = pop mem sp in
    let (rcx, sp) = pop mem sp in
    let (rax, sp) = pop mem sp in
    let (rip, sp) = pop mem sp in
    let (cs, sp) = pop mem sp in
    let (rflags, sp) = pop mem sp in
    let (rsp, sp) = pop mem sp in
    record {
      registers = record {
        rax = rax;
        rcx = rcx;
        rdx = rdx;
        rbx = rbx;
        rbp = rbp;
        rsi = rsi;
        rdi = rdi;
        r8 = r8;
        r9 = r9;
        r10 = r10;
        r11 = r11;
        r12 = r12;
        r13 = r13;
        r14 = r14;
        r15 = r15;
      };
      rip = rip;
      cs = cs;
      rflags = rflags;
      rsp = rsp;
      ss = mem sp;
    }
