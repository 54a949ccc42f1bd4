-- ===== src/Thread/Stack/Tests.antt =====
-- The stacks of src/thread.rs at concrete addresses.
use apogee.Base.{ℕ, ◌+◌, ◌*◌, ◌/◌, ◌<◌, ◌≤◌, ◌≡◌, ◌⊎◌, arith}
use apogee.Thread.Stack.{Memory, initial_stack, switch_in, stack_size}
use apogee.Thread.Stack.Switch.{zeroed, switch_in-initial_stack}

abbrev blank : Memory
blank x = 0

switch_in-initial_stack_example :
    (switch_in (initial_stack 0x4008 0x20_0000 blank).sp (initial_stack 0x4008 0x20_0000 blank).mem
      ≡ record { registers = zeroed; rsp = (0x4008 + stack_size) / 16 * 16; rip = 0x20_0000 })
    × ((x : ℕ)
        → (x + 56 < (0x4008 + stack_size) / 16 * 16) ⊎ ((0x4008 + stack_size) / 16 * 16 ≤ x)
        → (initial_stack 0x4008 0x20_0000 blank).mem x ≡ blank x)
switch_in-initial_stack_example = switch_in-initial_stack 0x4008 0x20_0000 blank (omega arith)
