-- ===== src/Keyboard/Keypresses/Typed.antt =====
-- What typing leaves in the key queue and on the console of src/task/keyboard.rs.
use apogee.Base.{
  ℕ, ◌-◌, ◌≡◌, refl, sym, ap, ◌∙◌, inl, inr, List, [], ◌∷◌, ◌++◌, Option, none, some, length,
  append-nil, Option-cases,
}
use apogee.Vga.{Writer, write_string}
use apogee.Keyboard.{Crates}
use apogee.Keyboard.Keypresses.{
  DecodedKey, unicode, raw_key, Decoder, Typing, encode_utf8, handle_key, decode, handle_scancode,
  handle_scancodes,
}
use apogee.Keyboard.Keypresses.Queued.{take, take_none, ascii, room, queue_character-HasQueued}

-- The characters that a key stands for, as code points.
abbrev pub character : DecodedKey → List ℕ
character (unicode ch) = ch ∷ []
character (raw_key key) = []

abbrev pub characters : List DecodedKey → List ℕ
characters [] = []
characters (key ∷ keys) = character key ++ characters keys

abbrev pub print_characters : Writer → List ℕ → Writer
print_characters w [] = w
print_characters w (ch ∷ chs) = print_characters (write_string w (encode_utf8 ch)) chs

module _ (c : Crates) (d : Decoder) where
  -- The keys that the decoder makes of a sequence of scancodes.
  abbrev pub keys_from : Option DecodedKey → List DecodedKey → List DecodedKey
  keys_from none keys = keys
  keys_from (some key) keys = key ∷ keys

  abbrev pub keys : d.State → List ℕ → List DecodedKey
  keys s [] = []
  keys s (scancode ∷ scancodes) =
      let (after, key) = decode c d s scancode in keys_from key (keys after scancodes)

  -- What one scancode makes of the queue and the console when `chs` follow the characters `made`.
  record HasHandled (t u : Typing c d) (q : c.Queue) (made : List ℕ) : Type 0 where
    r : c.Queue
    queue : u.keyboard.key_queue ≡ some r
    goes_on :
        (chs : List ℕ)
        → c.contents r ++ take (room c d r) (ascii chs)
          ≡ c.contents q ++ take (room c d q) (ascii (made ++ chs))
    shows : (chs : List ℕ) → print_characters u.writer chs ≡ print_characters t.writer (made ++ chs)
    scancodes : u.keyboard.scancode_queue ≡ t.keyboard.scancode_queue

  abbrev made : Option DecodedKey → List ℕ
  made none = []
  made (some key) = character key

  made_lem :
      (key : Option DecodedKey) (rest : List DecodedKey)
      → characters (keys_from key rest) ≡ made key ++ characters rest
  made_lem none rest = refl
  made_lem (some key) rest = refl

  handle_key-HasHandled :
      (t : Typing c d) (q : c.Queue) (key : DecodedKey)
      → t.keyboard.key_queue ≡ some q
      → HasHandled t (handle_key c d t key) q (character key)
  unfolding handle_key
  handle_key-HasHandled t q (unicode ch) there =
      let k = queue_character-HasQueued c d t.keyboard q ch there in
      record {
        r = k.r;
        queue = k.queue;
        goes_on = k.goes_on;
        shows = λ chs. refl;
        scancodes = k.scancodes;
      }
  handle_key-HasHandled t q (raw_key key) there = record {
    r = q;
    queue = there;
    goes_on = λ chs. refl;
    shows = λ chs. refl;
    scancodes = refl;
  }

  handle_key-decoder :
      (t : Typing c d) (key : DecodedKey) → (handle_key c d t key).decoder ≡ t.decoder
  unfolding handle_key
  handle_key-decoder t (unicode ch) = refl
  handle_key-decoder t (raw_key key) = refl

  handle_scancode-HasHandled :
      (t : Typing c d) (q : c.Queue) (scancode : ℕ)
      → t.keyboard.key_queue ≡ some q
      → HasHandled t (handle_scancode c d t scancode) q (made (decode c d t.decoder scancode).1)
        × ((handle_scancode c d t scancode).decoder ≡ (decode c d t.decoder scancode).0)
  unfolding handle_scancode
  handle_scancode-HasHandled t q scancode there =
      elim (Option-cases (decode c d t.decoder scancode).1) [
        | inl nothing ↦
            rw (nothing, handle_scancode)
              (
                record {
                  r = q;
                  queue = there;
                  goes_on = λ chs. refl;
                  shows = λ chs. refl;
                  scancodes = refl;
                },
                refl,
              )
        | inr (key, made_key) ↦
            let after : Typing c d = record t { decoder = (decode c d t.decoder scancode).0 } in
            let h = handle_key-HasHandled after q key there in
            rw (made_key, handle_scancode)
              (
                record {
                  r = h.r;
                  queue = h.queue;
                  goes_on = h.goes_on;
                  shows = h.shows;
                  scancodes = h.scancodes;
                },
                handle_key-decoder after key,
              )
      ]

  -- What is typed is in the key queue, as far as it has room, and on the console.
  pub record HasTyped (t u : Typing c d) (q : c.Queue) (chs : List ℕ) : Type 0 where
    pub r : c.Queue
    pub queue : u.keyboard.key_queue ≡ some r
    pub typed :
        c.contents r ≡ c.contents q ++ take (c.capacity q - length (c.contents q)) (ascii chs)
    pub shown : u.writer ≡ print_characters t.writer chs
    pub scancodes : u.keyboard.scancode_queue ≡ t.keyboard.scancode_queue

  -- Whatever scancodes come, in the order of the keys that the decoder makes of them: the characters
  -- of ASCII are queued behind what the key queue held, as many as it has room for, and the later
  -- ones are dropped; all characters are printed on the console; and the scancode queue is left as
  -- it was.
  pub handle_scancodes-HasTyped :
      (t : Typing c d) (q : c.Queue) (scancodes : List ℕ)
      → t.keyboard.key_queue ≡ some q
      → HasTyped t (handle_scancodes c d t scancodes) q (characters (keys t.decoder scancodes))
  unfolding handle_scancodes
  handle_scancodes-HasTyped t q [] there = record {
    r = q;
    queue = there;
    typed =
        sym (append-nil (c.contents q)) ∙ ap (◌++◌ (c.contents q)) (sym (take_none (room c d q)));
    shown = refl;
    scancodes = refl;
  }
  handle_scancodes-HasTyped t q (scancode ∷ scancodes) there =
      let (h, decoder) = handle_scancode-HasHandled t q scancode there in
      let u : Typing c d = handle_scancode c d t scancode in
      let rest = handle_scancodes-HasTyped u h.r scancodes h.queue in
      let chs : List ℕ = characters (keys u.decoder scancodes) in
      let all : characters (keys t.decoder (scancode ∷ scancodes))
          ≡ made (decode c d t.decoder scancode).1 ++ chs =
        made_lem (decode c d t.decoder scancode).1
          (keys (decode c d t.decoder scancode).0 scancodes)
        ∙ ap
            (λ (s : d.State).
              made (decode c d t.decoder scancode).1 ++ characters (keys s scancodes))
            (sym decoder) in
      rw all (record {
        r = rest.r;
        queue = rest.queue;
        typed = rest.typed ∙ h.goes_on chs;
        shown = rest.shown ∙ h.shows chs;
        scancodes = rest.scancodes ∙ h.scancodes;
      })
