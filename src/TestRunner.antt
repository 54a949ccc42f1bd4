-- ===== src/TestRunner.antt =====
-- src/lib.rs: the runner of the kernel's tests under QEMU. A test is a name and a function of what
-- the tests share; no result is a panic. Text that is formatted is an argument.
pub mod Verdict
mod Tests
use apogee.Base.{ℕ, List, [], ◌∷◌, ◌++◌, Option, none, some}

pub data QemuExitCode : Type 0 where
  success : QemuExitCode
  failed : QemuExitCode

-- `exit_code as u32`
abbrev pub as_u32 : QemuExitCode → ℕ
as_u32 success = 0x10
as_u32 failed = 0x11

abbrev pub exit_port : ℕ
exit_port = 0xf4

-- A test, with the message of its panic.
pub record Testable (World : Type 0) : Type 0 where
  pub name : List ℕ
  pub body : World → Option World
  pub message : List ℕ

-- The bytes sent over the serial line, the writes to ports, and what the tests share.
pub record Machine (World : Type 0) : Type 0 where
  pub serial : List ℕ
  pub ports : List (ℕ × ℕ)
  pub world : World

-- How a test ends: it returns, or panics with a message.
pub data Ran (World : Type 0) : Type 0 where
  returned : Machine World → Ran World
  panicking : Machine World → List ℕ → Ran World

module _ {World : Type 0} where
  unfoldable pub serial_print : Machine World → List ℕ → Machine World
  serial_print m text = record m { serial = m.serial ++ text }

  unfoldable pub exit_qemu : Machine World → QemuExitCode → Machine World
  exit_qemu m exit_code = record m { ports = m.ports ++ (exit_port, as_u32 exit_code) ∷ [] }

  -- `Testable::run`: "{}...\t", the test, "[ok]\n".
  unfoldable pub run : Machine World → Testable World → Ran World
  unfolding serial_print
  run m test =
      let named = serial_print m (test.name ++ 0x2e ∷ 0x2e ∷ 0x2e ∷ 0x09 ∷ []) in
      elim (test.body named.world) [
        | none ↦ panicking named test.message
        | some world ↦
            returned (
              serial_print (record named { world = world }) (0x5b ∷ 0x6f ∷ 0x6b ∷ 0x5d ∷ 0x0a ∷ []))
      ]

  -- The loop of `test_runner`.
  unfoldable pub run_all : Machine World → List (Testable World) → Ran World
  run_all m [] = returned m
  run_all m (test ∷ tests) = elim (run m test) [
    | returned after ↦ run_all after tests
    | panicking at message ↦ panicking at message
  ]

  -- The rest of `test_runner`, when its loop ended; "\n  All tests passed!\n\n".
  unfoldable pub after_tests : Ran World → Ran World
  unfolding serial_print exit_qemu
  after_tests (returned m) =
      let passed = serial_print m (
        0x0a ∷ 0x20 ∷ 0x20 ∷ 0x41 ∷ 0x6c ∷ 0x6c ∷ 0x20 ∷ 0x74 ∷ 0x65 ∷ 0x73 ∷ 0x74 ∷ 0x73 ∷ 0x20
        ∷ 0x70 ∷ 0x61 ∷ 0x73 ∷ 0x73 ∷ 0x65 ∷ 0x64 ∷ 0x21 ∷ 0x0a ∷ 0x0a ∷ []) in
      returned (exit_qemu passed success)
  after_tests (panicking m message) = panicking m message

  -- `heading` is the text with the number of tests.
  unfoldable pub test_runner : Machine World → List ℕ → List (Testable World) → Ran World
  unfolding serial_print
  test_runner m heading tests = after_tests (run_all (serial_print m heading) tests)

  -- "[failed]\n\n", "Error: {}\n\n"
  unfoldable pub test_panic_handler : Machine World → List ℕ → Machine World
  unfolding serial_print exit_qemu
  test_panic_handler m message =
      let shown =
        serial_print m (0x5b ∷ 0x66 ∷ 0x61 ∷ 0x69 ∷ 0x6c ∷ 0x65 ∷ 0x64 ∷ 0x5d ∷ 0x0a ∷ 0x0a ∷ []) in
      let explained =
        serial_print shown
          ((0x45 ∷ 0x72 ∷ 0x72 ∷ 0x6f ∷ 0x72 ∷ 0x3a ∷ 0x20 ∷ []) ++ message ++ 0x0a ∷ 0x0a ∷ []) in
      exit_qemu explained failed

  -- The panic handler of a test build, on the outcome of `test_runner`.
  unfoldable pub handle_panic : Ran World → Machine World
  unfolding test_panic_handler
  handle_panic (returned m) = m
  handle_panic (panicking m message) = test_panic_handler m message
