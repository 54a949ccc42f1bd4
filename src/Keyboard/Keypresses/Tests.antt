-- ===== src/Keyboard/Keypresses/Tests.antt =====
-- Two letters typed at src/task/keyboard.rs, with a decoder whose scancodes are the characters, and
-- room for one of them.
use apogee.Base.{ℕ, refl, [], ◌∷◌, none, some, ltb, if◌then◌else◌}
use apogee.Keyboard.ListQueue.{Fifo, list_crates}
use apogee.Keyboard.Keypresses.{unicode, Decoder, Typing, handle_scancodes}
use apogee.Keyboard.Keypresses.Typed.{characters, keys, HasTyped, handle_scancodes-HasTyped}

abbrev plain : Decoder
plain = record {
  State = ℕ;
  Event = ℕ;
  start = 0;
  add_byte = λ s b. (s, if ltb b 0x80 then some b else none);
  process_keyevent = λ s e. (s, some (unicode e));
}

abbrev queue : Fifo
queue = record { items = 0x61 ∷ []; room = 2 }

abbrev typing : Typing list_crates plain
typing = record {
  keyboard = record { scancode_queue = none; key_queue = some queue; waker = none };
  decoder = 0;
  writer = record {
    column_position = 0;
    color_code = 7;
    buffer = λ r k. record { ascii_character = 0x20; color_code = 7 };
  };
}

handle_scancodes-HasTyped_example :
    HasTyped list_crates plain typing
      (handle_scancodes list_crates plain typing (0x62 ∷ 0x9e ∷ 0x63 ∷ []))
      queue
      (characters (keys list_crates plain 0 (0x62 ∷ 0x9e ∷ 0x63 ∷ [])))
handle_scancodes-HasTyped_example =
    handle_scancodes-HasTyped list_crates plain typing queue (0x62 ∷ 0x9e ∷ 0x63 ∷ []) refl
