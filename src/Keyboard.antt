-- ===== src/Keyboard.antt =====
-- src/task/keyboard.rs: the scancode and key queues between the keyboard interrupt, the keyboard
-- task and `sys_read`. `ArrayQueue` of crossbeam and `AtomicWaker` of futures are a parameter; a
-- task is known to its waker by a number. Logging is left out.
pub mod Fifo
pub mod ListQueue
pub mod Keypresses
mod Tests
use apogee.Base.{ℕ, ◌≤◌, ◌<◌, ◌≡◌, ◌↔◌, Bool, true, List, [], ◌∷◌, ◌++◌, Option, none, some, length}

-- The queue and the waker, with what their documentation says of them.
pub record Crates : Type 1 where
  pub Queue : Type 0
  pub new_queue : ℕ → Queue
  pub push : Queue → ℕ → Option Queue
  pub pop : Queue → Option (Queue × ℕ)
  pub contents : Queue → List ℕ
  pub capacity : Queue → ℕ
  pub contents-new_queue : (n : ℕ) → contents (new_queue n) ≡ []
  pub capacity-new_queue : (n : ℕ) → capacity (new_queue n) ≡ n
  -- A push goes to the back unless the queue is full, a pop takes the front.
  pub push_full : (q : Queue) (x : ℕ) → capacity q ≤ length (contents q) → push q x ≡ none
  pub push_back :
      (q : Queue) (x : ℕ)
      → length (contents q) < capacity q
      → (r : Queue) × (push q x ≡ some r)
        × (contents r ≡ contents q ++ x ∷ [])
        × (capacity r ≡ capacity q)
  pub pop_empty : (q : Queue) → contents q ≡ [] → pop q ≡ none
  pub pop_front :
      (q : Queue) (x : ℕ) (xs : List ℕ)
      → contents q ≡ x ∷ xs
      → (r : Queue) × (pop q ≡ some (r, x)) × (contents r ≡ xs) × (capacity r ≡ capacity q)
  pub is_empty : Queue → Bool
  pub is_empty_iff : (q : Queue) → (is_empty q ≡ true) ↔ (contents q ≡ [])
  pub Waker : Type 0
  pub new_waker : Waker
  -- The waker without its task, and the task, which is woken.
  pub wake : Waker → Waker × Option ℕ
  pub register : Waker → ℕ → Waker
  pub take : Waker → Waker
  pub wake-register : (w : Waker) (task : ℕ) → (wake (register w task)).1 ≡ some task

abbrev pub scancode_queue_capacity : ℕ
scancode_queue_capacity = 100

abbrev pub key_queue_capacity : ℕ
key_queue_capacity = 100

-- The three statics. A `OnceCell` that is not initialised is `none`.
pub record Keyboard (c : Crates) : Type 0 where
  pub scancode_queue : Option c.Queue
  pub key_queue : Option c.Queue
  pub waker : c.Waker

-- What a call of `add_scancode` did, apart from the state.
pub data Added : Type 0 where
  woke : Option ℕ → Added
  dropped_full : Added
  dropped_uninitialized : Added

-- `Poll<Option<u8>>`, and the panic of an uninitialised queue.
pub data Polled : Type 0 where
  ready : ℕ → Polled
  pending : Polled
  panicked : Polled

module _ (c : Crates) where
  abbrev pub uninit : Keyboard c
  uninit = record { scancode_queue = none; key_queue = none; waker = c.new_waker }

  unfoldable pub add_scancode : Keyboard c → ℕ → Keyboard c × Added
  add_scancode k scancode = elim k.scancode_queue [
    | none ↦ (k, dropped_uninitialized)
    | some queue ↦ elim (c.push queue scancode) [
      | none ↦ (k, dropped_full)
      | some pushed ↦ (
        record k { scancode_queue = some pushed; waker = (c.wake k.waker).0 },
        woke (c.wake k.waker).1,
      )
    ]
  ]

  -- `ScancodeStream::new`; no result is its panic on a second call.
  unfoldable pub new_stream : Keyboard c → Option (Keyboard c)
  new_stream k = elim k.scancode_queue [
    | some queue ↦ none
    | none ↦ elim k.key_queue [
      | some queue ↦ none
      | none ↦ some (record k {
        scancode_queue = some (c.new_queue scancode_queue_capacity);
        key_queue = some (c.new_queue key_queue_capacity);
      })
    ]
  ]

  unfoldable pub read_byte : Keyboard c → Keyboard c × Option ℕ
  read_byte k = elim k.key_queue [
    | none ↦ (k, none)
    | some queue ↦ elim (c.pop queue) [
      | none ↦ (k, none)
      | some (rest, byte) ↦ (record k { key_queue = some rest }, some byte)
    ]
  ]

  -- `poll_next` of the task `task` in its three steps, between which the interrupt may come: the
  -- first look, with no result when it goes on; the registration of the waker; and the second look.
  unfoldable pub poll_fast : Keyboard c → Keyboard c × Option Polled
  poll_fast k = elim k.scancode_queue [
    | none ↦ (k, some panicked)
    | some queue ↦ elim (c.pop queue) [
      | some (rest, scancode) ↦ (record k { scancode_queue = some rest }, some (ready scancode))
      | none ↦ (k, none)
    ]
  ]

  unfoldable pub register_waker : Keyboard c → ℕ → Keyboard c
  register_waker k task = record k { waker = c.register k.waker task }

  unfoldable pub poll_slow : Keyboard c → Keyboard c × Polled
  poll_slow k = elim k.scancode_queue [
    | none ↦ (k, panicked)
    | some queue ↦ elim (c.pop queue) [
      | some (rest, scancode) ↦
          (record k { scancode_queue = some rest; waker = c.take k.waker }, ready scancode)
      | none ↦ (k, pending)
    ]
  ]
