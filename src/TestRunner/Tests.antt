-- ===== src/TestRunner/Tests.antt =====
-- Tests that return and one that panics, run by src/lib.rs.
use apogee.Base.{ℕ, suc, [], ◌∷◌, none, some}
use apogee.TestRunner.{Testable, Machine, test_runner, handle_panic}
use apogee.TestRunner.Verdict.{pass, Tells, test_runner-Tells}

abbrev counts : Testable ℕ
counts = record { name = 0x61 ∷ []; body = λ n. some (suc n); message = [] }

abbrev panics : Testable ℕ
panics = record { name = 0x62 ∷ []; body = λ n. none; message = 0x21 ∷ [] }

abbrev machine : Machine ℕ
machine = record { serial = []; ports = []; world = 0 }

test_runner-Tells_example :
    Tells []
      (pass (counts ∷ panics ∷ counts ∷ []) 0)
      (handle_panic (test_runner machine (0x33 ∷ []) (counts ∷ panics ∷ counts ∷ [])))
test_runner-Tells_example = test_runner-Tells machine (0x33 ∷ []) (counts ∷ panics ∷ counts ∷ [])
