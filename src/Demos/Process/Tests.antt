-- ===== src/Demos/Process/Tests.antt =====
-- The userland demo of src/demos.rs on a fresh kernel, with a tick between its two system calls.
use apogee.Base.{refl, [], ◌∷◌, ◌++◌, arith}
use apogee.Keyboard.ListQueue.{list_crates}
use apogee.Interrupts.{timer_fired, system_call}
use apogee.Paging.Tables.{paging}
use apogee.Demos.Process.{userland_demo}
use apogee.Demos.Process.Whole.{Completes, userland_demo-Completes}
use apogee.Demos.Process.Fresh.{
  setup, now, sels, call, bytes, write, write-WritesReadable, machine-IsRegistry, machine-IsQuiet,
}

userland_demo-Completes_example : Completes setup (
    userland_demo paging list_crates sels now 7
      ((timer_fired ∷ system_call write bytes ∷ timer_fired ∷ [])
        ++ system_call (call 0 0 0 0) bytes ∷ [])
      setup)
userland_demo-Completes_example =
    userland_demo-Completes paging list_crates sels now (call 0 0 0 0) bytes refl
      (timer_fired ∷ system_call write bytes ∷ timer_fired ∷ [])
      (tt, ((ground arith, ground arith, write-WritesReadable), (tt, tt))) setup 7 machine-IsQuiet
      machine-IsRegistry (omega arith) (omega arith) (omega arith)
