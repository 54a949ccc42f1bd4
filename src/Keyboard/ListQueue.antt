-- ===== src/Keyboard/ListQueue.antt =====
-- A queue and a waker as src/task/keyboard.rs relies on them, for the tests: a list with a
-- capacity, and the number of the task that waits.
use apogee.Base.{
  ℕ, ◌≤◌, ◌<◌, ◌≡◌, ◌↔◌, Bool, true, false, refl, ap, List, [], ◌∷◌, ◌++◌, Option, none, some,
  length, ltb, if◌then◌else◌, arith,
}
use apogee.Keyboard.{Crates}

pub record Fifo : Type 0 where
  pub items : List ℕ
  pub room : ℕ

abbrev pub push : Fifo → ℕ → Option Fifo
push q x =
    if ltb (length q.items) q.room then some (record q { items = q.items ++ x ∷ [] }) else none

abbrev pub pop_items : ℕ → List ℕ → Option (Fifo × ℕ)
pop_items room [] = none
pop_items room (x ∷ xs) = some (record { items = xs; room = room }, x)

abbrev pub pop : Fifo → Option (Fifo × ℕ)
pop q = pop_items q.room q.items

pub push-some :
    (q : Fifo) (x : ℕ)
    → length q.items < q.room
    → push q x ≡ some (record q { items = q.items ++ x ∷ [] })
push-some q x h = ground arith

pub push-none : (q : Fifo) (x : ℕ) → q.room ≤ length q.items → push q x ≡ none
push-none q x h = ground arith

abbrev pub no_items : List ℕ → Bool
no_items [] = true
no_items (x ∷ xs) = false

pub no_items_iff : (xs : List ℕ) → (no_items xs ≡ true) ↔ (xs ≡ [])
no_items_iff [] = (λ e. refl, λ e. refl)
no_items_iff (x ∷ xs) = (λ e. absurd (ground arith), λ e. absurd (ground arith))

abbrev pub list_crates : Crates
list_crates = record {
  Queue = Fifo;
  new_queue = λ n. record { items = []; room = n };
  push = push;
  pop = pop;
  contents = λ q. q.items;
  capacity = λ q. q.room;
  contents-new_queue = λ n. refl;
  capacity-new_queue = λ n. refl;
  push_full = push-none;
  push_back = λ q x h. (record q { items = q.items ++ x ∷ [] }, push-some q x h, refl, refl);
  pop_empty = λ q e. ap (pop_items q.room) e;
  pop_front =
      λ q x xs e. (record { items = xs; room = q.room }, ap (pop_items q.room) e, refl, refl);
  is_empty = λ q. no_items q.items;
  is_empty_iff = λ q. no_items_iff q.items;
  Waker = Option ℕ;
  new_waker = none;
  wake = λ w. (none, w);
  register = λ w task. some task;
  take = λ w. none;
  wake-register = λ w task. refl;
}
