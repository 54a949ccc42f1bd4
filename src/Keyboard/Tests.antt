-- ===== src/Keyboard/Tests.antt =====
-- The queue of src/task/keyboard.rs with room for one more scancode, and empty with a task that
-- polls it.
use apogee.Base.{◌≡◌, refl, [], ◌∷◌, none, some, arith}
use apogee.Keyboard.{
  Keyboard, add_scancode, woke, ready, pending, poll_fast, register_waker, poll_slow,
}
use apogee.Keyboard.Fifo.{k, poll-add_scancode}
use apogee.Keyboard.ListQueue.{Fifo, list_crates}

abbrev nearly_full : Fifo
nearly_full = record { items = 0x1e ∷ 0x9e ∷ []; room = 3 }

abbrev empty : Fifo
empty = record { items = []; room = 100 }

abbrev idle : Keyboard list_crates
idle = k list_crates empty none none

abbrev waiting : Keyboard list_crates
waiting = register_waker list_crates idle 7

poll-add_scancode_example :
    ((poll_fast list_crates (add_scancode list_crates idle 0x1e).0).1 ≡ some (ready 0x1e))
    × (poll_fast list_crates idle ≡ (idle, none))
    × ((poll_slow list_crates
          (register_waker list_crates (add_scancode list_crates idle 0x1e).0 7)).1
        ≡ ready 0x1e)
    × ((poll_slow list_crates (add_scancode list_crates waiting 0x1e).0).1 ≡ ready 0x1e)
    × (poll_slow list_crates waiting ≡ (waiting, pending))
    × ((add_scancode list_crates waiting 0x1e).1 ≡ woke (some 7))
poll-add_scancode_example = poll-add_scancode list_crates empty none none refl (omega arith) 7 0x1e
