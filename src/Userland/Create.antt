-- ===== src/Userland/Create.antt =====
-- `create_process_from_program` of src/userland.rs.
use apogee.Base.{
  ℕ, zero, suc, ◌+◌, ◌≤◌, ◌≡◌, ◌≢◌, refl, sym, ◌∙◌, inl, inr, List, [], ◌∷◌, Option, none, some,
  length, get_elem?, ltb, Bool-cases, arith,
}
use apogee.Keyboard.{Crates}
use apogee.Kernel.{Moment, create, call}
use apogee.Syscall.{user_code_base, user_stack_top}
use apogee.Paging.{Paging}
use apogee.Userland.{
  user_stack_base, CreateError, no_code_frame, code_not_mapped, no_stack_frame, stack_not_mapped,
  Created, created, failed, lost, Setup, copy_bytes, map_user_page, register_process, after_stack,
  after_code, create_process_from_program,
}
use apogee.Userland.UserPage.{HasMapped, PageOutcome, map_user_page-PageOutcome}

-- What was copied stands at its place.
copy_bytes-get_elem? :
    (bytes : ℕ → ℕ) (address : ℕ) (program : List ℕ) (i b : ℕ)
    → get_elem? program i ≡ some b
    → copy_bytes bytes address program (address + i) ≡ b
unfolding copy_bytes
copy_bytes-get_elem? bytes address [] i b h = absurd (ground arith)
copy_bytes-get_elem? bytes address (x ∷ program) zero b h = ground arith
copy_bytes-get_elem? bytes address (x ∷ program) (suc i) b h =
    let rest = copy_bytes-get_elem? bytes (suc address) program i b h in
    let place : suc address + i ≡ address + suc i = omega arith in ground (arith, rw place at rest)

module _ (p : Paging) (c : Crates) where
  register_process_lem :
      (s : Setup p c) (now : Moment)
      → register_process p c s now ≡ (
        record s { machine = (create c s.machine user_code_base user_stack_top).0 },
        created (create c s.machine user_code_base user_stack_top).1,
      )
  unfolding register_process call
  register_process_lem s now = refl

  -- The program is in the code page, the stack page is there, both newly mapped, every other page
  -- is as it was, and the process is registered.
  pub record HasProcess (s u : Setup p c) (program : List ℕ) (pid : ℕ) : Type 0 where
    pub fits : length program ≤ 4096
    pub code_free : p.translate_page s.mapper user_code_base ≡ none
    pub stack_free : p.translate_page s.mapper user_stack_base ≡ none
    pub code_frame : ℕ
    pub code_mapped : p.translate_page u.mapper user_code_base ≡ some code_frame
    pub stack_frame : ℕ
    pub stack_mapped : p.translate_page u.mapper user_stack_base ≡ some stack_frame
    pub others :
        (page : ℕ)
        → page ≢ user_code_base
        → page ≢ user_stack_base
        → p.translate_page u.mapper page ≡ p.translate_page s.mapper page
    pub loaded : (i b : ℕ) → get_elem? program i ≡ some b → u.bytes (user_code_base + i) ≡ b
    pub registered : create c s.machine user_code_base user_stack_top ≡ (u.machine, pid)

  -- No process is registered, and no page but the one for the code has changed.
  pub record HasFailed (s u : Setup p c) : Type 0 where
    pub machine : u.machine ≡ s.machine
    pub others :
        (page : ℕ)
        → page ≢ user_code_base
        → p.translate_page u.mapper page ≡ p.translate_page s.mapper page

  abbrev pub CreateOutcome : Setup p c → List ℕ → Setup p c × Created → Type 0
  CreateOutcome s program (u, created pid) = HasProcess s u program pid
  CreateOutcome s program (u, failed e) = HasFailed s u
  CreateOutcome s program (u, lost) = ⊥

  module _ (s : Setup p c) (now : Moment) (program : List ℕ) (fits : length program ≤ 4096) where
    after_stack-CreateOutcome :
        (t : Setup p c)
        → HasMapped p c s t user_code_base
        → (o : Setup p c × Option CreateError)
        → PageOutcome p c
            (record t { bytes = copy_bytes t.bytes user_code_base program })
            user_stack_base
            o
        → CreateOutcome s program (after_stack p c now o)
    unfolding after_stack
    after_stack-CreateOutcome t code (u, some e) refused = record {
      machine = refused.machine ∙ code.machine;
      others = λ page h. refused.same page ∙ code.others page h;
    }
    after_stack-CreateOutcome t code (u, none) stack =
        rw (register_process_lem u now, stack.machine, code.machine)
          (record {
            fits = fits;
            code_free = code.free;
            stack_free = sym (code.others user_stack_base (ground arith)) ∙ stack.free;
            code_frame = code.frame;
            code_mapped = stack.others user_code_base (ground arith) ∙ code.mapped;
            stack_frame = stack.frame;
            stack_mapped = stack.mapped;
            others = λ page h k. stack.others page k ∙ code.others page h;
            loaded =
                λ i b h. rw stack.bytes (copy_bytes-get_elem? t.bytes user_code_base program i b h);
            registered = refl;
          })

    after_code-CreateOutcome :
        (o : Setup p c × Option CreateError)
        → PageOutcome p c s user_code_base o
        → CreateOutcome s program (after_code p c now program o)
    unfolding after_code
    after_code-CreateOutcome (t, some e) refused = record {
      machine = refused.machine;
      others = λ page h. refused.same page;
    }
    after_code-CreateOutcome (t, none) code =
        let copied : Setup p c = record t { bytes = copy_bytes t.bytes user_code_base program } in
        after_stack-CreateOutcome t code
          (map_user_page p c copied user_stack_base no_stack_frame stack_not_mapped)
          (map_user_page-PageOutcome p c copied user_stack_base no_stack_frame stack_not_mapped
            (omega arith))

  -- The call comes back, and a process is created or not. If it is, the program had at most 4096 bytes and stands at the
  -- code address, the code page and the stack page were free and are mapped, every other page is as
  -- it was, and the process is registered as `create` of the kernel does. If it is not, the kernel
  -- is as it was, and so is every page but the one for the code.
  pub create_process_from_program-CreateOutcome :
      (s : Setup p c) (now : Moment) (program : List ℕ)
      → CreateOutcome s program (create_process_from_program p c s now program)
  unfolding create_process_from_program
  create_process_from_program-CreateOutcome s now program =
      elim (Bool-cases (ltb 4096 (length program))) [
        | inl large ↦ rw large (record { machine = refl; others = λ x h. refl })
        | inr fits ↦ rw fits (
            after_code-CreateOutcome s now program (ground arith)
              (map_user_page p c s user_code_base no_code_frame code_not_mapped)
              (map_user_page-PageOutcome p c s user_code_base no_code_frame code_not_mapped
                (omega arith)))
      ]
