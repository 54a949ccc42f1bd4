-- ===== src/Userland.antt =====
-- src/userland.rs and the selectors of src/gdt.rs: a process is created with a page for its code
-- and one for its stack, and a thread of its own drops into ring 3. The page tables, the frame
-- allocator behind its trait and the descriptor table of the x86_64 crate are parameters.
pub mod UserPage
pub mod Create
pub mod Again
pub mod Enter
mod Tests
use apogee.Base.{
  ℕ, zero, suc, ◌+◌, ◌%◌, ◌≡◌, ◌≢◌, List, [], ◌∷◌, Bool, true, false, Option, none, some, length,
  ltb, ◌==◌, if◌then◌else◌,
}
use apogee.Thread
use apogee.Thread.{current_process}
use apogee.Keyboard.{Crates}
use apogee.Process.{ProcessSnapshot}
use apogee.Kernel.{Machine, Moment, Answer, answers, never_returns, panics, call}
use apogee.Kernel.Abi.{
  kernel, user, process_create, process_snapshot, Response, process, snapshot, err,
}
use apogee.Paging.{Mapped, Paging}
use apogee.Gdt.{Selectors}
use apogee.Syscall.{user_code_base, user_stack_top}

abbrev pub user_stack_base : ℕ
user_stack_base = 0x4000_0000_2000

-- `PRESENT | WRITABLE | USER_ACCESSIBLE`
abbrev pub user_flags : ℕ
user_flags = 7

-- `USER_DEMO`
abbrev pub user_demo : List ℕ
user_demo =
    0x48 ∷ 0xc7 ∷ 0xc0 ∷ 0x01 ∷ 0x00 ∷ 0x00 ∷ 0x00 ∷ 0x48 ∷ 0xc7 ∷ 0xc7 ∷ 0x01 ∷ 0x00 ∷ 0x00 ∷ 0x00
    ∷ 0x48 ∷ 0x8d ∷ 0x35 ∷ 0x18 ∷ 0x00 ∷ 0x00 ∷ 0x00 ∷ 0x48 ∷ 0xc7 ∷ 0xc2 ∷ 0x13 ∷ 0x00 ∷ 0x00
    ∷ 0x00 ∷ 0xcd ∷ 0x80 ∷ 0x48 ∷ 0xc7 ∷ 0xc0 ∷ 0x00 ∷ 0x00 ∷ 0x00 ∷ 0x00 ∷ 0x48 ∷ 0x31 ∷ 0xff
    ∷ 0xcd ∷ 0x80 ∷ 0xf4 ∷ 0xeb ∷ 0xfe ∷ 0x68 ∷ 0x65 ∷ 0x6c ∷ 0x6c ∷ 0x6f ∷ 0x20 ∷ 0x66 ∷ 0x72
    ∷ 0x6f ∷ 0x6d ∷ 0x20 ∷ 0x72 ∷ 0x69 ∷ 0x6e ∷ 0x67 ∷ 0x20 ∷ 0x33 ∷ 0x21 ∷ 0x0a ∷ []

-- `CRASH_PF_DEMO`
abbrev pub crash_pf_demo : List ℕ
crash_pf_demo =
    0x48 ∷ 0xb8 ∷ 0x00 ∷ 0x00 ∷ 0x00 ∷ 0x00 ∷ 0x00 ∷ 0x50 ∷ 0x00 ∷ 0x00 ∷ 0x48 ∷ 0xc7 ∷ 0x00 ∷ 0x00
    ∷ 0x00 ∷ 0x00 ∷ 0x00 ∷ 0xf4 ∷ 0xeb ∷ 0xfe ∷ []

-- `CRASH_GPF_DEMO`
abbrev pub crash_gpf_demo : List ℕ
crash_gpf_demo = 0xf4 ∷ 0xeb ∷ 0xfe ∷ []

-- The error strings.
pub data CreateError : Type 0 where
  program_too_large : CreateError
  no_code_frame : CreateError
  code_not_mapped : CreateError
  no_stack_frame : CreateError
  stack_not_mapped : CreateError
  registration_denied : CreateError
  unexpected_response : CreateError

-- The result, or none when the call of the kernel does not come back.
pub data Created : Type 0 where
  created : ℕ → Created
  failed : CreateError → Created
  lost : Created

-- The machine with the active page tables, the frames left, and the bytes at each address.
pub record Setup (p : Paging) (c : Crates) : Type 0 where
  pub mapper : p.Mapper
  pub frames : p.Frames
  pub bytes : ℕ → ℕ
  pub machine : Machine c

-- `copy_nonoverlapping`
unfoldable pub copy_bytes : (ℕ → ℕ) → ℕ → List ℕ → ℕ → ℕ
copy_bytes bytes address [] = bytes
copy_bytes bytes address (b ∷ program) =
    let rest = copy_bytes bytes (suc address) program in λ a. if a == address then b else rest a

module _ (p : Paging) (c : Crates) where
  -- A frame for a page of the user, mapped there; the two errors are the caller's.
  unfoldable pub map_user_page :
      Setup p c → ℕ → CreateError → CreateError → Setup p c × Option CreateError
  map_user_page s address no_frame not_mapped =
      let (frames, allocated) = p.allocate_frame s.frames in
      elim allocated [
        | none ↦ (record s { frames = frames }, some no_frame)
        | some frame ↦
            let page = p.containing_address address in
            let m = p.map_to s.mapper page frame user_flags user_flags frames in
            let after : Setup p c = record s { mapper = m.mapper; frames = m.frames } in
            elim m.done [ false ↦ (after, some not_mapped) | true ↦ (after, none) ]
      ]

  unfoldable pub register_process : Setup p c → Moment → Setup p c × Created
  register_process s now =
      elim (call c s.machine now kernel (process_create user_code_base user_stack_top)) [
        | answers after (process pid) ↦ (record s { machine = after }, created pid)
        | answers after (err e) ↦ (record s { machine = after }, failed registration_denied)
        | answers after response ↦ (record s { machine = after }, failed unexpected_response)
        | never_returns after ↦ (s, lost)
        | panics ↦ (s, lost)
      ]

  -- The rest of `create_process_from_program` once the stack page was mapped or not, and once the
  -- code page was.
  unfoldable pub after_stack : Moment → Setup p c × Option CreateError → Setup p c × Created
  after_stack now (s, some e) = (s, failed e)
  after_stack now (s, none) = register_process s now

  unfoldable pub after_code : Moment → List ℕ → Setup p c × Option CreateError → Setup p c × Created
  after_code now program (s, some e) = (s, failed e)
  after_code now program (s, none) =
      let copied : Setup p c = record s { bytes = copy_bytes s.bytes user_code_base program } in
      after_stack now (map_user_page copied user_stack_base no_stack_frame stack_not_mapped)

  unfoldable pub create_process_from_program : Setup p c → Moment → List ℕ → Setup p c × Created
  create_process_from_program s now program =
      if ltb 4096 (length program)
      then (s, failed program_too_large)
      else after_code now program (map_user_page s user_code_base no_code_frame code_not_mapped)

  unfoldable pub create_demo_process : Setup p c → Moment → Setup p c × Created
  create_demo_process s now = create_process_from_program s now user_demo

-- `iretq` pops these.
pub record IretFrame : Type 0 where
  pub rip : ℕ
  pub cs : ℕ
  pub rflags : ℕ
  pub rsp : ℕ
  pub ss : ℕ

unfoldable pub enter_userland : Selectors → ℕ → ℕ → IretFrame
enter_userland sels rip rsp = record {
  rip = rip;
  cs = sels.user_code;
  rflags = 0x202;
  rsp = rsp;
  ss = sels.user_data;
}

module _ (c : Crates) where
  -- `spawn_user_thread`, with its panic as no result; the thread's id is not used.
  unfoldable pub spawn_user_thread : Machine c → Moment → ℕ → Option (Machine c)
  spawn_user_thread m now pid = elim (Thread.spawn m.threads pid now.stack now.initial_rsp) [
    | none ↦ none
    | some (after, id) ↦ some (record m { threads = after })
  ]

  -- `user_thread_entry` up to the jump to ring 3; no result is its panic.
  unfoldable pub user_thread_entry : Machine c → Moment → Selectors → Option IretFrame
  user_thread_entry m now sels =
      let pid = current_process m.threads in
      elim (call c m now (user pid) (process_snapshot pid)) [
        | answers after (snapshot (some snap)) ↦
            some (enter_userland sels snap.user_entry snap.user_stack_top)
        | answers after response ↦ none
        | never_returns after ↦ none
        | panics ↦ none
      ]
