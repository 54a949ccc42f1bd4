-- ===== src/Keyboard/Keypresses.antt =====
-- `print_keypresses` of src/task/keyboard.rs: each scancode goes through the decoder of the
-- pc-keyboard crate, which is a parameter, and a character goes to the key queue and to the console.
-- Logging is left out.
pub mod Queued
pub mod Typed
mod Tests
use apogee.Base.{
  ℕ, ◌+◌, ◌*◌, ◌/◌, ◌%◌, List, [], ◌∷◌, Option, none, some, true, false, leb, ltb, if◌then◌else◌,
}
use apogee.Vga.{Writer, write_string}
use apogee.Keyboard.{Crates, Keyboard}

pub data DecodedKey : Type 0 where
  unicode : ℕ → DecodedKey
  raw_key : ℕ → DecodedKey

-- The decoder. No event is an error or a scancode that completes none.
pub record Decoder : Type 1 where
  pub State : Type 0
  pub Event : Type 0
  pub start : State
  pub add_byte : State → ℕ → State × Option Event
  pub process_keyevent : State → Event → State × Option DecodedKey

-- UTF-8
unfoldable pub encode_utf8 : ℕ → List ℕ
encode_utf8 ch =
    if ltb ch 0x80
    then ch ∷ []
    else if ltb ch 0x800
    then (0xc0 + ch / 64) ∷ (0x80 + ch % 64) ∷ []
    else if ltb ch 0x10000
    then (0xe0 + ch / 4096) ∷ (0x80 + ch / 64 % 64) ∷ (0x80 + ch % 64) ∷ []
    else (0xf0 + ch / 262144)
      ∷ (0x80 + ch / 4096 % 64)
      ∷ (0x80 + ch / 64 % 64)
      ∷ (0x80 + ch % 64)
      ∷ []

pub record Typing (c : Crates) (d : Decoder) : Type 0 where
  pub keyboard : Keyboard c
  pub decoder : d.State
  pub writer : Writer

module _ (c : Crates) (d : Decoder) where
  -- A character of ASCII goes to the queue, unless the queue is full.
  unfoldable pub queue_character : Keyboard c → ℕ → Keyboard c
  queue_character k character = elim k.key_queue [
    | none ↦ k
    | some queue ↦ elim (leb character 0x7f) [
      | false ↦ k
      | true ↦ elim (c.push queue character) [
        | none ↦ k
        | some pushed ↦ record k { key_queue = some pushed }
      ]
    ]
  ]

  unfoldable pub handle_key : Typing c d → DecodedKey → Typing c d
  handle_key t (unicode character) = record t {
    keyboard = queue_character t.keyboard character;
    writer = write_string t.writer (encode_utf8 character);
  }
  handle_key t (raw_key key) = t

  unfoldable pub decode : d.State → ℕ → d.State × Option DecodedKey
  decode s scancode =
      let (added, event) = d.add_byte s scancode in
      elim event [ none ↦ (added, none) | some e ↦ d.process_keyevent added e ]

  unfoldable pub handle_scancode : Typing c d → ℕ → Typing c d
  handle_scancode t scancode =
      let (decoder, key) = decode t.decoder scancode in
      let after : Typing c d = record t { decoder = decoder } in
      elim key [ none ↦ after | some k ↦ handle_key after k ]

  -- The loop, over the scancodes that the stream has handed out.
  unfoldable pub handle_scancodes : Typing c d → List ℕ → Typing c d
  handle_scancodes t [] = t
  handle_scancodes t (scancode ∷ scancodes) =
      handle_scancodes (handle_scancode t scancode) scancodes
