-- ===== src/TestRunner/Verdict.antt =====
-- What the test runner of src/lib.rs tells QEMU.
use apogee.Base.{ℕ, ◌≡◌, refl, inl, inr, List, [], ◌∷◌, ◌++◌, Option, none, some, Option-cases}
use apogee.TestRunner.{
  QemuExitCode, success, failed, as_u32, exit_port, Testable, Machine, serial_print, exit_qemu, run,
  run_all, after_tests, test_runner, test_panic_handler, handle_panic,
}

module _ {World : Type 0} where
  -- The tests one after the other, without the machine around them.
  abbrev pub pass : List (Testable World) → World → Option World
  pass [] w = some w
  pass (test ∷ tests) w = elim (test.body w) [ none ↦ none | some after ↦ pass tests after ]

  abbrev pub verdict : Option World → QemuExitCode
  verdict none = failed
  verdict (some w) = success

  abbrev pub Tells : List (ℕ × ℕ) → Option World → Machine World → Type 0
  Tells before passed m = m.ports ≡ before ++ (exit_port, as_u32 (verdict passed)) ∷ []

  run_all-Tells :
      (m : Machine World) (tests : List (Testable World))
      → Tells m.ports (pass tests m.world) (handle_panic (after_tests (run_all m tests)))
  unfolding run_all run after_tests serial_print exit_qemu handle_panic test_panic_handler
  run_all-Tells m [] = refl
  run_all-Tells m (test ∷ tests) = elim (Option-cases (test.body m.world)) [
    | inl fails ↦ rw (fails, run_all) refl
    | inr (after, works) ↦
        rw (works, run_all)
          (run_all-Tells
            (record m {
              serial =
                  m.serial
                  ++ (test.name ++ 0x2e ∷ 0x2e ∷ 0x2e ∷ 0x09 ∷ [])
                  ++ 0x5b ∷ 0x6f ∷ 0x6b ∷ 0x5d ∷ 0x0a ∷ [];
              world = after;
            })
            tests)
  ]

  -- A test build writes one code to QEMU's exit port: 0x10 when every test returns, each on what the
  -- tests before it left, and 0x11 when one panics.
  pub test_runner-Tells :
      (m : Machine World) (heading : List ℕ) (tests : List (Testable World))
      → Tells m.ports (pass tests m.world) (handle_panic (test_runner m heading tests))
  unfolding test_runner serial_print
  test_runner-Tells m heading tests = run_all-Tells (serial_print m heading) tests
