-- ===== src/Thread/Stack/Switch.antt =====
-- What a context switch of src/thread.rs restores.
use apogee.Base.{
  ◌⊎◌, ℕ, ◌+◌, ◌-◌, ◌/◌, ◌*◌, ◌≤◌, ◌<◌, ◌≡◌, refl, word, add64, sub64, not64, bit_and,
  bit_and_align, add64-eq-add, arith, if◌then◌else◌, ◌==◌,
}
use apogee.Thread.Stack.{
  Memory, Stack, Saved, push, push_zeros, initial_stack, switch_out, switch_in, stack_size,
}

abbrev pub zeroed : Saved
zeroed = record { rbp = 0; rbx = 0; r12 = 0; r13 = 0; r14 = 0; r15 = 0 }

-- The slots from `sp` up to the return address have not been written since.
abbrev pub Kept : ℕ → Memory → Memory → Type 0
Kept sp mem mem' =
    (mem' sp ≡ mem sp)
    × (mem' (sp + 8) ≡ mem (sp + 8))
    × (mem' (sp + 16) ≡ mem (sp + 16))
    × (mem' (sp + 24) ≡ mem (sp + 24))
    × (mem' (sp + 32) ≡ mem (sp + 32))
    × (mem' (sp + 40) ≡ mem (sp + 40))
    × (mem' (sp + 48) ≡ mem (sp + 48))

pub switch_out_sp :
    (r : Saved) (s : Stack) → 48 ≤ s.sp → s.sp < word → (switch_out r s).sp ≡ s.sp - 48
unfolding switch_out push sub64
switch_out_sp r s h l = omega arith

pub switch_out_mem :
    (r : Saved) (s : Stack) (x : ℕ)
    → 48 ≤ s.sp
    → s.sp < word
    → (switch_out r s).mem x ≡ (
        if x == (s.sp - 48)
        then r.r15
        else if x == (s.sp - 40)
        then r.r14
        else if x == (s.sp - 32)
        then r.r13
        else if x == (s.sp - 24)
        then r.r12
        else if x == (s.sp - 16)
        then r.rbx
        else if x == (s.sp - 8)
        then r.rbp
        else s.mem x)
unfolding switch_out push
switch_out_mem r s x h l =
    let e1 : sub64 s.sp 8 ≡ s.sp - 8 = unfold sub64 in omega arith in
    let e2 : sub64 (s.sp - 8) 8 ≡ s.sp - 16 = unfold sub64 in omega arith in
    let e3 : sub64 (s.sp - 16) 8 ≡ s.sp - 24 = unfold sub64 in omega arith in
    let e4 : sub64 (s.sp - 24) 8 ≡ s.sp - 32 = unfold sub64 in omega arith in
    let e5 : sub64 (s.sp - 32) 8 ≡ s.sp - 40 = unfold sub64 in omega arith in
    let e6 : sub64 (s.sp - 40) 8 ≡ s.sp - 48 = unfold sub64 in omega arith in
    rw (e1, e2, e3, e4, e5, e6) refl

-- The seven loads of a switch from `sp`.
pub switch_in_loads :
    (sp : ℕ) (mem : Memory)
    → sp + 56 < word
    → switch_in sp mem ≡ record {
      registers = record {
        r15 = mem sp;
        r14 = mem (sp + 8);
        r13 = mem (sp + 16);
        r12 = mem (sp + 24);
        rbx = mem (sp + 32);
        rbp = mem (sp + 40);
      };
      rip = mem (sp + 48);
      rsp = sp + 56;
    }
unfolding switch_in
switch_in_loads sp mem h =
    rw
      (
        add64-eq-add sp 8 (omega arith),
        add64-eq-add sp 16 (omega arith),
        add64-eq-add sp 24 (omega arith),
        add64-eq-add sp 32 (omega arith),
        add64-eq-add sp 40 (omega arith),
        add64-eq-add sp 48 (omega arith),
        add64-eq-add sp 56 (omega arith),
      )
      refl

-- A thread that is switched out and later in again resumes with the registers it had, at the
-- return address on its stack and with that address popped, if nothing wrote to the seven slots of
-- its stack in between and the stack does not wrap around the address space.
pub switch_in-switch_out :
    (r : Saved) (s : Stack) (mem' : Memory)
    → 48 ≤ s.sp
    → s.sp + 8 < word
    → Kept (s.sp - 48) (switch_out r s).mem mem'
    → switch_in (switch_out r s).sp mem'
      ≡ record { registers = r; rsp = s.sp + 8; rip = s.mem s.sp }
switch_in-switch_out r s mem' low high k =
    let base = s.sp - 48 in
    let e0 : mem' base ≡ r.r15 = ground (arith, k.0, switch_out_mem r s base low (omega arith)) in
    let e1 : mem' (base + 8) ≡ r.r14 =
      ground (arith, k.1, switch_out_mem r s (base + 8) low (omega arith)) in
    let e2 : mem' (base + 16) ≡ r.r13 =
      ground (arith, k.2, switch_out_mem r s (base + 16) low (omega arith)) in
    let e3 : mem' (base + 24) ≡ r.r12 =
      ground (arith, k.3, switch_out_mem r s (base + 24) low (omega arith)) in
    let e4 : mem' (base + 32) ≡ r.rbx =
      ground (arith, k.4, switch_out_mem r s (base + 32) low (omega arith)) in
    let e5 : mem' (base + 40) ≡ r.rbp =
      ground (arith, k.5, switch_out_mem r s (base + 40) low (omega arith)) in
    let e6 : mem' (base + 48) ≡ s.mem (base + 48) =
      ground (arith, k.6, switch_out_mem r s (base + 48) low (omega arith)) in
    let top : base + 48 ≡ s.sp = omega arith in
    let over : base + 56 ≡ s.sp + 8 = omega arith in
    rw
      (
        switch_out_sp r s low (omega arith),
        switch_in_loads base mem' (omega arith),
        e0,
        e1,
        e2,
        e3,
        e4,
        e5,
        e6,
        top,
        over,
      )
      refl

top_lem :
    (base : ℕ)
    → base + stack_size < word
    → bit_and (add64 base stack_size) (not64 0xf) ≡ (base + stack_size) / 16 * 16
unfolding not64
top_lem base h =
    rw (add64-eq-add base stack_size h) (bit_and_align 4 (base + stack_size) (omega arith) h)

-- A new stack is that of a thread that was switched out at its entry with zero registers.
module _ (base entry : ℕ) (mem : Memory) (h : base + stack_size < word) where
  abbrev top : ℕ
  top = (base + stack_size) / 16 * 16

  abbrev entered : Stack
  entered = push (record { sp = top; mem = mem }) entry

  initial_stack-switch_out : initial_stack base entry mem ≡ switch_out zeroed entered
  unfolding initial_stack push_zeros switch_out
  initial_stack-switch_out = rw (top_lem base h) refl

  entered_sp : entered.sp ≡ top - 8
  unfolding push sub64
  entered_sp = omega arith

  entered_mem : (x : ℕ) → entered.mem x ≡ (if x == (top - 8) then entry else mem x)
  unfolding push
  entered_mem x = let e : sub64 top 8 ≡ top - 8 = unfold sub64 in omega arith in rw e refl

  first_switch :
      switch_in (switch_out zeroed entered).sp (switch_out zeroed entered).mem
      ≡ record { registers = zeroed; rsp = entered.sp + 8; rip = entered.mem entered.sp }
  first_switch =
      switch_in-switch_out zeroed entered (switch_out zeroed entered).mem
        (omega (arith, entered_sp)) (omega (arith, entered_sp))
        (refl, refl, refl, refl, refl, refl, refl)

  -- The first switch to a new thread, over the memory that `KernelThread::new` left, jumps to the
  -- entry function with zero registers and a stack pointer that is a multiple of 16, the end of the
  -- stack's buffer rounded down. Outside the 56 bytes below it memory is as it was. The buffer ends
  -- below 2^64.
  pub switch_in-initial_stack :
      (switch_in (initial_stack base entry mem).sp (initial_stack base entry mem).mem
        ≡ record { registers = zeroed; rsp = (base + stack_size) / 16 * 16; rip = entry })
      × ((x : ℕ)
          → (x + 56 < (base + stack_size) / 16 * 16) ⊎ ((base + stack_size) / 16 * 16 ≤ x)
          → (initial_stack base entry mem).mem x ≡ mem x)
  switch_in-initial_stack =
      let jump : entered.mem entered.sp ≡ entry =
        ground (arith, entered_sp, entered_mem entered.sp) in
      let above : entered.sp + 8 ≡ top = omega (arith, entered_sp) in
      rw initial_stack-switch_out (
        rw (jump, above) at first_switch,
        λ x out. ground (
          arith,
          entered_sp,
          entered_mem x,
          switch_out_mem zeroed entered x (omega (arith, entered_sp)) (omega (arith, entered_sp)),
        ),
      )
