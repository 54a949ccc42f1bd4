-- ===== src/Kernel/Compat.antt =====
-- The helpers of src/process.rs, which call the kernel of src/kernel/mod.rs without its checks.
use apogee.Base.{
  ℕ, ◌≡◌, refl, inl, inr, Bool, true, false, Option, none, some, ◌==◌, if◌then◌else◌, Option-cases,
  arith,
}
use apogee.Base.Maps.{lookup, IsMap, lookup-insert, lookup-remove}
use apogee.Process.{Process, ProcessSnapshot}
use apogee.Keyboard.{Crates}
use apogee.Kernel
use apogee.Kernel.{Machine, find_snapshot}

module _ (c : Crates) where
  -- `KERNEL.register_process` and `process::register`
  unfoldable pub register_process : Machine c → Process → Machine c × ℕ
  register_process m p = Kernel.register c m p

  -- `KERNEL.exit_process`
  unfoldable pub exit_process : Machine c → ℕ → ℕ → Machine c × Bool
  exit_process m pid code = Kernel.exit c m pid code

  -- `process::exit` ignores whether the process was there.
  unfoldable pub exit : Machine c → ℕ → ℕ → Machine c
  unfolding exit_process
  exit m pid code = (exit_process m pid code).0

  -- `KERNEL.process_snapshot` and `process::snapshot`
  unfoldable pub process_snapshot : Machine c → ℕ → Option ProcessSnapshot
  process_snapshot m pid = find_snapshot c m pid

  unfoldable pub is_registered : Machine c → ℕ → Bool
  unfolding process_snapshot
  is_registered m pid = elim (process_snapshot m pid) [ none ↦ false | some s ↦ true ]

  is_registered_lem :
      (m : Machine c) (pid : ℕ)
      → is_registered m pid ≡ elim (lookup pid m.processes) [ none ↦ false | some p ↦ true ]
  unfolding is_registered process_snapshot find_snapshot
  is_registered_lem m pid = elim (Option-cases (lookup pid m.processes)) [
    | inl missing ↦ rw (missing, is_registered, process_snapshot, find_snapshot) refl
    | inr (p, found) ↦ rw (found, is_registered, process_snapshot, find_snapshot) refl
  ]

  module _ (m : Machine c) where
    -- A registered process shows under its pid, and no other changes.
    pub is_registered-register_process :
        (p : Process) (x : ℕ)
        → is_registered (register_process m p).0 x
          ≡ (if p.pid == x then true else is_registered m x)
    unfolding register_process Kernel.register
    is_registered-register_process p x = ground (
      arith,
      is_registered_lem m x,
      is_registered_lem (register_process m p).0 x,
      lookup-insert p.pid x p m.processes,
    )

    -- Whatever its status, a process that exits no longer shows, and no other changes.
    pub is_registered-exit :
        (pid code x : ℕ)
        → IsMap m.processes
        → is_registered (exit m pid code) x ≡ (if pid == x then false else is_registered m x)
    unfolding exit exit_process Kernel.exit
    is_registered-exit pid code x single = elim (Option-cases (lookup pid m.processes)) [
      | inl missing ↦ ground (arith, is_registered_lem m x)
      | inr (p, found) ↦ ground (
        arith,
        is_registered_lem m x,
        is_registered_lem (exit m pid code) x,
        lookup-remove pid x m.processes single,
      )
    ]
