-- ===== src/Syscall/Stub/Restore.antt =====
-- What the handler reads through the frame pointer of `syscall_isr` of src/syscall.rs, and what the
-- process has back when the stub returns.
use apogee.Base.{
  ℕ, zero, suc, ◌+◌, ◌-◌, ◌*◌, ◌%◌, ◌≤◌, ◌<◌, ◌≡◌, refl, ◌∙◌, List, [], ◌∷◌, some, get_elem?,
  length, word, sub64, add64, add64-eq-add, ◌==◌, if◌then◌else◌, arith,
}
use apogee.Thread.Stack.{Memory, Stack, push}
use apogee.Syscall.{SyscallFrame}
use apogee.Syscall.Stub.{
  Registers, push_all, pushed, save_registers, frame_at, write_rax, Returned, pop,
  restore_registers,
}

push_sp : (s : Stack) (v : ℕ) → 8 ≤ s.sp → s.sp < word → (push s v).sp ≡ s.sp - 8
unfolding push sub64
push_sp s v h l = omega arith

push_mem :
    (s : Stack) (v x : ℕ)
    → 8 ≤ s.sp
    → s.sp < word
    → (push s v).mem x ≡ (if x == (s.sp - 8) then v else s.mem x)
unfolding push
push_mem s v x h l = let e : sub64 s.sp 8 ≡ s.sp - 8 = unfold sub64 in omega arith in rw e refl

push_all_sp :
    (vs : List ℕ) (s : Stack)
    → length vs * 8 ≤ s.sp
    → s.sp < word
    → (push_all vs s).sp ≡ s.sp - length vs * 8
unfolding push_all
push_all_sp [] s h l = omega arith
push_all_sp (v ∷ vs) s h l =
    let e = push_sp s v (omega arith) l in
    omega (arith, push_all_sp vs (push s v) (omega (arith, e)) (omega (arith, e)), e)

-- The slots that were on the stack are as they were.
push_all_above :
    (vs : List ℕ) (s : Stack) (x : ℕ)
    → length vs * 8 ≤ s.sp
    → s.sp < word
    → s.sp ≤ x
    → (push_all vs s).mem x ≡ s.mem x
unfolding push_all
push_all_above [] s x h l u = refl
push_all_above (v ∷ vs) s x h l u =
    let e = push_sp s v (omega arith) l in
    let r =
      push_all_above vs (push s v) x (omega (arith, e)) (omega (arith, e)) (omega (arith, e)) in
    let m = push_mem s v x (omega arith) l in r ∙ ground (arith, m)

-- Each pushed value is in its slot.
push_all_at :
    (vs : List ℕ) (s : Stack) (i v x : ℕ)
    → length vs * 8 ≤ s.sp
    → s.sp < word
    → x + suc i * 8 ≡ s.sp
    → get_elem? vs i ≡ some v
    → (push_all vs s).mem x ≡ v
unfolding push_all
push_all_at [] s i v x h l u g = ground arith
push_all_at (w ∷ vs) s zero v x h l u g =
    let e = push_sp s w (omega arith) l in
    let r =
      push_all_above vs (push s w) x (omega (arith, e)) (omega (arith, e)) (omega (arith, e)) in
    let m = push_mem s w x (omega arith) l in ground (arith, r, m)
push_all_at (w ∷ vs) s (suc i) v x h l u g =
    let e = push_sp s w (omega arith) l in
    push_all_at vs (push s w) i v x (omega (arith, e)) (omega (arith, e)) (omega (arith, e)) g

-- The frame that holds the registers over the five slots that the processor pushed.
abbrev pub saved : Registers → Stack → SyscallFrame
saved r s = record {
  r15 = r.r15;
  r14 = r.r14;
  r13 = r.r13;
  r12 = r.r12;
  r11 = r.r11;
  r10 = r.r10;
  r9 = r.r9;
  r8 = r.r8;
  rdi = r.rdi;
  rsi = r.rsi;
  rbp = r.rbp;
  rbx = r.rbx;
  rdx = r.rdx;
  rcx = r.rcx;
  rax = r.rax;
  rip = s.mem s.sp;
  cs = s.mem (s.sp + 8);
  rflags = s.mem (s.sp + 16);
  user_rsp = s.mem (s.sp + 24);
  user_ss = s.mem (s.sp + 32);
}

module _ (r : Registers) (s : Stack) (low : 120 ≤ s.sp) (high : s.sp + 40 < word) where
  save_registers_sp : (save_registers r s).sp ≡ s.sp - 120
  unfolding save_registers
  save_registers_sp = push_all_sp (pushed r) s low (omega arith)

  slot :
      (i v x : ℕ)
      → x + suc i * 8 ≡ s.sp
      → get_elem? (pushed r) i ≡ some v
      → (save_registers r s).mem x ≡ v
  unfolding save_registers
  slot i v x = push_all_at (pushed r) s i v x low (omega arith)

  above : (x : ℕ) → s.sp ≤ x → (save_registers r s).mem x ≡ s.mem x
  unfolding save_registers
  above x = push_all_above (pushed r) s x low (omega arith)

  -- The frame at a pointer where memory holds the saved registers but for the value of `rax`.
  frame_at_lem :
      (value : ℕ) (mem : Memory)
      → ((x : ℕ)
          → s.sp - 120 ≤ x
          → x < s.sp + 40
          → mem x ≡ (if x == (s.sp - 8) then value else (save_registers r s).mem x))
      → frame_at mem (s.sp - 120) ≡ record (saved r s) { rax = value }
  unfolding frame_at
  frame_at_lem value mem k =
      let p = s.sp - 120 in
      let field : (i v x : ℕ)
          → x + suc (suc i) * 8 ≡ s.sp
          → get_elem? (pushed r) (suc i) ≡ some v
          → i < 14
          → mem x ≡ v =
        λ i v x u g b. ground (arith, k x, slot (suc i) v x u g) in
      let outer : (x y : ℕ) → x ≡ y → s.sp ≤ x → x < s.sp + 40 → mem x ≡ s.mem y =
        λ x y u l h. ground (arith, k x, above x) in
      let rax : mem (p + 112) ≡ value = ground (arith, k (p + 112)) in
      rw
        (
          add64-eq-add p 8 (omega arith),
          add64-eq-add p 16 (omega arith),
          add64-eq-add p 24 (omega arith),
          add64-eq-add p 32 (omega arith),
          add64-eq-add p 40 (omega arith),
          add64-eq-add p 48 (omega arith),
          add64-eq-add p 56 (omega arith),
          add64-eq-add p 64 (omega arith),
          add64-eq-add p 72 (omega arith),
          add64-eq-add p 80 (omega arith),
          add64-eq-add p 88 (omega arith),
          add64-eq-add p 96 (omega arith),
          add64-eq-add p 104 (omega arith),
          add64-eq-add p 112 (omega arith),
          add64-eq-add p 120 (omega arith),
          add64-eq-add p 128 (omega arith),
          add64-eq-add p 136 (omega arith),
          add64-eq-add p 144 (omega arith),
          add64-eq-add p 152 (omega arith),
          field 13 r.r15 p (omega arith) refl (omega arith),
          field 12 r.r14 (p + 8) (omega arith) refl (omega arith),
          field 11 r.r13 (p + 16) (omega arith) refl (omega arith),
          field 10 r.r12 (p + 24) (omega arith) refl (omega arith),
          field 9 r.r11 (p + 32) (omega arith) refl (omega arith),
          field 8 r.r10 (p + 40) (omega arith) refl (omega arith),
          field 7 r.r9 (p + 48) (omega arith) refl (omega arith),
          field 6 r.r8 (p + 56) (omega arith) refl (omega arith),
          field 5 r.rdi (p + 64) (omega arith) refl (omega arith),
          field 4 r.rsi (p + 72) (omega arith) refl (omega arith),
          field 3 r.rbp (p + 80) (omega arith) refl (omega arith),
          field 2 r.rbx (p + 88) (omega arith) refl (omega arith),
          field 1 r.rdx (p + 96) (omega arith) refl (omega arith),
          field 0 r.rcx (p + 104) (omega arith) refl (omega arith),
          rax,
          outer (p + 120) s.sp (omega arith) (omega arith) (omega arith),
          outer (p + 128) (s.sp + 8) (omega arith) (omega arith) (omega arith),
          outer (p + 136) (s.sp + 16) (omega arith) (omega arith) (omega arith),
          outer (p + 144) (s.sp + 24) (omega arith) (omega arith) (omega arith),
          outer (p + 152) (s.sp + 32) (omega arith) (omega arith) (omega arith),
        )
        refl

  -- The handler's frame pointer reads the registers and the slots that the processor pushed.
  frame_at-save_registers : frame_at (save_registers r s).mem (save_registers r s).sp ≡ saved r s
  frame_at-save_registers =
      rw save_registers_sp
        (frame_at_lem r.rax (save_registers r s).mem (λ x l u. ground (arith, slot 0 r.rax x)))

  write_rax_mem :
      (value x : ℕ)
      → write_rax (save_registers r s).mem (save_registers r s).sp value x
        ≡ (if x == (s.sp - 8) then value else (save_registers r s).mem x)
  unfolding write_rax
  write_rax_mem value x =
      let e : s.sp - 120 + 112 ≡ s.sp - 8 = omega arith in
      rw (save_registers_sp, add64-eq-add (s.sp - 120) 112 (omega arith), e) refl

-- A frame as the state of the processor that its slots are loaded into.
abbrev loaded : SyscallFrame → Returned
loaded f = record {
  registers = record {
    rax = f.rax;
    rcx = f.rcx;
    rdx = f.rdx;
    rbx = f.rbx;
    rbp = f.rbp;
    rsi = f.rsi;
    rdi = f.rdi;
    r8 = f.r8;
    r9 = f.r9;
    r10 = f.r10;
    r11 = f.r11;
    r12 = f.r12;
    r13 = f.r13;
    r14 = f.r14;
    r15 = f.r15;
  };
  rip = f.rip;
  cs = f.cs;
  rflags = f.rflags;
  rsp = f.user_rsp;
  ss = f.user_ss;
}

-- The pops and `iretq` load what the frame pointer reads.
restore_registers-frame_at :
    (sp : ℕ) (mem : Memory) → sp + 160 < word → restore_registers sp mem ≡ loaded (frame_at mem sp)
unfolding restore_registers frame_at pop
restore_registers-frame_at sp mem h =
    let next : (n : ℕ) → n < 160 → add64 (add64 sp n) 8 ≡ add64 sp (n + 8) =
      λ n l. unfold add64 in omega arith in
    rw
      (
        next 8 (omega arith),
        next 16 (omega arith),
        next 24 (omega arith),
        next 32 (omega arith),
        next 40 (omega arith),
        next 48 (omega arith),
        next 56 (omega arith),
        next 64 (omega arith),
        next 72 (omega arith),
        next 80 (omega arith),
        next 88 (omega arith),
        next 96 (omega arith),
        next 104 (omega arith),
        next 112 (omega arith),
        next 120 (omega arith),
        next 128 (omega arith),
        next 136 (omega arith),
        next 144 (omega arith),
      )
      refl

-- The handler of a system call reads, through the frame pointer, the registers of the process and
-- the five slots that the processor pushed, and the stack pointer is a multiple of 16 at its call.
-- Whatever value the handler leaves in `rax`, and whatever happens to memory outside the frame until
-- the stub goes on, the process has all its registers back but `rax`, which has the value, and the
-- instruction pointer, flags, stack pointer and segments of the five slots. The stack pointer is 8
-- more than a multiple of 16 at entry, there is room for the fifteen registers below it, and the
-- five slots do not wrap around the address space.
pub restore_registers-save_registers :
    (r : Registers) (s : Stack) (value : ℕ) (mem' : Memory)
    → 120 ≤ s.sp
    → s.sp + 40 < word
    → s.sp % 16 ≡ 8
    → ((x : ℕ)
        → (save_registers r s).sp ≤ x
        → x < s.sp + 40
        → mem' x ≡ write_rax (save_registers r s).mem (save_registers r s).sp value x)
    → (frame_at (save_registers r s).mem (save_registers r s).sp ≡ saved r s)
      × ((save_registers r s).sp % 16 ≡ 0)
      × (restore_registers (save_registers r s).sp mem' ≡ record {
        registers = record r { rax = value };
        rip = s.mem s.sp;
        cs = s.mem (s.sp + 8);
        rflags = s.mem (s.sp + 16);
        rsp = s.mem (s.sp + 24);
        ss = s.mem (s.sp + 32);
      })
restore_registers-save_registers r s value mem' low high even kept =
    let sp = save_registers_sp r s low high in
    let frame =
      frame_at_lem r s low high value mem'
        (λ x l u. kept x (omega (arith, sp)) u ∙ write_rax_mem r s low high value x) in
    (
      frame_at-save_registers r s low high,
      omega (arith, sp),
      rw (sp, restore_registers-frame_at (s.sp - 120) mem' (omega arith), frame) refl,
    )
