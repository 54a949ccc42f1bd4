-- ===== src/Keyboard/Keypresses/Queued.antt =====
-- A character that is typed and the key queue of src/task/keyboard.rs.
use apogee.Base.{
  ℕ, zero, suc, ◌-◌, ◌≡◌, refl, sym, ap, ◌∙◌, inl, inr, List, [], ◌∷◌, ◌++◌, some, length,
  length-append, append_assoc, leb, if◌then◌else◌, Bool-cases, arith,
}
use native.Mathlib.Decide.{dec_lt}
use apogee.Keyboard.{Crates, Keyboard}
use apogee.Keyboard.Keypresses.{Decoder, queue_character}

-- The first `n` elements, or all.
abbrev pub take : ℕ → List ℕ → List ℕ
take zero xs = []
take (suc n) [] = []
take (suc n) (x ∷ xs) = x ∷ take n xs

take_zero : (n : ℕ) (xs : List ℕ) → n ≡ 0 → take n xs ≡ []
take_zero zero xs h = refl
take_zero (suc n) xs h = absurd (ground arith)

take_suc : (n k : ℕ) (x : ℕ) (xs : List ℕ) → n ≡ suc k → take n (x ∷ xs) ≡ x ∷ take k xs
take_suc n k x xs h = rw h refl

pub take_none : (n : ℕ) → take n [] ≡ []
take_none zero = refl
take_none (suc n) = refl

-- The characters of ASCII.
abbrev pub ascii : List ℕ → List ℕ
ascii [] = []
ascii (ch ∷ chs) = if leb ch 0x7f then ch ∷ ascii chs else ascii chs

module _ (c : Crates) (d : Decoder) where
  abbrev pub room : c.Queue → ℕ
  room q = c.capacity q - length (c.contents q)

  -- What happens to the queue `q` when `chs` follow a character, however many.
  pub record HasQueued (k u : Keyboard c) (q : c.Queue) (ch : ℕ) : Type 0 where
    pub r : c.Queue
    pub queue : u.key_queue ≡ some r
    pub goes_on :
        (chs : List ℕ)
        → c.contents r ++ take (room r) (ascii chs)
          ≡ c.contents q ++ take (room q) (ascii (ch ∷ chs))
    pub scancodes : u.scancode_queue ≡ k.scancode_queue

  pub queue_character-HasQueued :
      (k : Keyboard c) (q : c.Queue) (ch : ℕ)
      → k.key_queue ≡ some q
      → HasQueued k (queue_character c d k ch) q ch
  unfolding queue_character
  queue_character-HasQueued k q ch there = elim (Bool-cases (leb ch 0x7f)) [
    | inr beyond ↦ record {
      r = q;
      queue = rw (there, queue_character, beyond) there;
      goes_on = λ chs. rw beyond refl;
      scancodes = rw (there, queue_character, beyond) refl;
    }
    | inl is_ascii ↦ elim (dec_lt (length (c.contents q)) (c.capacity q)) [
      | no full ↦
          let dropped = c.push_full q ch (omega arith) in
          record {
            r = q;
            queue = rw (there, queue_character, is_ascii, dropped) there;
            goes_on = λ chs. rw is_ascii (
                ap (◌++◌ (c.contents q)) (
                  take_zero (room q) (ascii chs) (omega arith)
                  ∙ sym (take_zero (room q) (ch ∷ ascii chs) (omega arith))));
            scancodes = rw (there, queue_character, is_ascii, dropped) refl;
          }
      | yes free ↦
          let (r, pushed, back, same) = c.push_back q ch free in
          record {
            r = r;
            queue = rw (there, queue_character, is_ascii, pushed) refl;
            goes_on = λ chs. rw is_ascii (
                ap (λ xs. xs ++ take (room r) (ascii chs)) back
                ∙ append_assoc (c.contents q) (ch ∷ []) (take (room r) (ascii chs))
                ∙ ap (◌++◌ (c.contents q)) (
                    sym (
                      take_suc (room q) (room r) ch (ascii chs)
                        (omega (arith, ap length back, length-append (c.contents q) (ch ∷ []))))));
            scancodes = rw (there, queue_character, is_ascii, pushed) refl;
          }
    ]
  ]
