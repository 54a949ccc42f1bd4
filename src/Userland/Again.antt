-- ===== src/Userland/Again.antt =====
-- A second process of src/userland.rs.
use apogee.Base.{ℕ, ◌≡◌, refl, List, some, arith}
use apogee.Keyboard.{Crates}
use apogee.Kernel.{Moment}
use apogee.Syscall.{user_code_base}
use apogee.Paging.{Paging}
use apogee.Userland.{
  CreateError, Created, created, failed, lost, Setup, create_process_from_program,
}
use apogee.Userland.Create.{HasProcess, CreateOutcome, create_process_from_program-CreateOutcome}

module _ (p : Paging) (c : Crates) where
  refused :
      (s : Setup p c) (program : List ℕ) (frame : ℕ)
      → p.translate_page s.mapper user_code_base ≡ some frame
      → (o : Setup p c × Created) → CreateOutcome p c s program o
      → (w : Setup p c) × (e : CreateError) × (o ≡ (w, failed e)) × (w.machine ≡ s.machine)
  refused s program frame taken (w, created pid) h = absurd (ground (arith, h.code_free))
  refused s program frame taken (w, failed e) h = (w, e, refl, h.machine)
  refused s program frame taken (w, lost) h = absurd h

  -- Once a process was created, none can be while the page tables are as it left them, whatever has
  -- become of the process, of the frames and of the memory: creating one fails and leaves the kernel
  -- as it was.
  pub create-create_process_from_program :
      (s u v : Setup p c) (now later : Moment) (program other : List ℕ) (pid : ℕ)
      → create_process_from_program p c s now program ≡ (u, created pid)
      → v.mapper ≡ u.mapper
      → (w : Setup p c) × (e : CreateError) × (create_process_from_program p c v later other
          ≡ (w, failed e))
        × (w.machine ≡ v.machine)
  create-create_process_from_program s u v now later program other pid h same =
      let first : HasProcess p c s u program pid =
        rw h at (create_process_from_program-CreateOutcome p c s now program) in
      let taken : p.translate_page v.mapper user_code_base ≡ some first.code_frame =
        rw same first.code_mapped in
      refused v other first.code_frame taken (create_process_from_program p c v later other)
        (create_process_from_program-CreateOutcome p c v later other)
