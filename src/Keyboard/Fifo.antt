-- ===== src/Keyboard/Fifo.antt =====
-- The scancode queue of src/task/keyboard.rs between the interrupt and the keyboard task.
use apogee.Base.{
  ℕ, ◌≤◌, ◌<◌, ◌≡◌, refl, ap, ◌∙◌, List, [], ◌∷◌, ◌++◌, Option, none, some, length, arith,
}
use apogee.Keyboard.{
  Crates, Keyboard, woke, dropped_full, ready, pending, add_scancode, poll_fast, register_waker,
  poll_slow,
}

module _ (c : Crates) (q : c.Queue) (keys : Option c.Queue) (w : c.Waker) where
  -- The keyboard once the stream is made, with `q` for the scancode queue.
  abbrev pub k : Keyboard c
  k = record { scancode_queue = some q; key_queue = keys; waker = w }

  -- A scancode goes to the back of the queue and wakes the task that waits, unless the queue is
  -- full: then it is dropped and nothing changes.
  pub add_scancode_lem :
      (x : ℕ)
      → (length (c.contents q) < c.capacity q
          → (r : c.Queue) × (add_scancode c k x
              ≡ (record k { scancode_queue = some r; waker = (c.wake w).0 }, woke (c.wake w).1))
            × (c.contents r ≡ c.contents q ++ x ∷ []))
        × (c.capacity q ≤ length (c.contents q) → add_scancode c k x ≡ (k, dropped_full))
  unfolding add_scancode
  add_scancode_lem x = (
    λ room.
        let (r, pushed, back, _) = c.push_back q x room in
        (r, rw (pushed, add_scancode) refl, back),
    λ full. rw (c.push_full q x full, add_scancode) refl,
  )

  module _ (empty : c.contents q ≡ []) (room : 0 < c.capacity q) (task : ℕ) where
    -- The keyboard behind the interrupt.
    abbrev pub interrupted : Keyboard c → ℕ → Keyboard c
    interrupted keyboard x = (add_scancode c keyboard x).0

    abbrev pub registered : Keyboard c
    registered = register_waker c k task

    -- No wake-up is lost, wherever the interrupt comes, when a task polls an empty queue with room for
    -- a scancode. Before the poll, the first look finds the scancode. Else that look goes on to the
    -- registration, with nothing changed; when the interrupt comes before or behind the registration,
    -- the second look finds the scancode. Else the poll reports that nothing is there and leaves the
    -- waker registered, and the interrupt wakes the task.
    pub poll-add_scancode :
        (x : ℕ)
        → ((poll_fast c (interrupted k x)).1 ≡ some (ready x))
          × (poll_fast c k ≡ (k, none))
          × ((poll_slow c (register_waker c (interrupted k x) task)).1 ≡ ready x)
          × ((poll_slow c (interrupted registered x)).1 ≡ ready x)
          × (poll_slow c registered ≡ (registered, pending))
          × ((add_scancode c registered x).1 ≡ woke (some task))
    unfolding add_scancode poll_fast register_waker poll_slow
    poll-add_scancode x =
        let (r, pushed, back, _) = c.push_back q x (omega (arith, ap length empty)) in
        let (s, popped, _, _) =
          c.pop_front r x [] (back ∙ ap (λ (xs : List ℕ). xs ++ x ∷ []) empty) in
        (
          rw (pushed, add_scancode, popped, poll_fast) refl,
          rw (c.pop_empty q empty, poll_fast) refl,
          rw (pushed, add_scancode, popped, poll_slow) refl,
          rw (pushed, add_scancode, popped, poll_slow) refl,
          rw (c.pop_empty q empty, poll_slow) refl,
          rw (pushed, add_scancode, c.wake-register w task) refl,
        )
