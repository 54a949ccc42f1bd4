-- ===== src/Logger/Line.antt =====
-- The line that src/logger.rs writes for a message.
use apogee.Base.{
  ℕ, ◌+◌, ◌%◌, ◌≡◌, refl, ◌∙◌, List, [], ◌∷◌, ◌++◌, none, some, true, false, length, min, get_elem?,
  append_assoc, Option, word, add64, arith,
}
use apogee.Logger.{
  Serial, LogLevel, tag, write_str, drop_message, to_ascii_uppercase, copy_upper, short, log,
}

-- The byte of a source's name at a place, or a blank.
abbrev pub label_byte : Option ℕ → ℕ
label_byte none = 0x20
label_byte (some b) = to_ascii_uppercase b

pub short_lem :
    (source : List ℕ)
    → short source
      ≡ label_byte (get_elem? source 0)
        ∷ label_byte (get_elem? source 1)
        ∷ label_byte (get_elem? source 2)
        ∷ label_byte (get_elem? source 3)
        ∷ []
unfolding short copy_upper
short_lem [] = refl
short_lem (a ∷ []) = refl
short_lem (a ∷ b ∷ []) = refl
short_lem (a ∷ b ∷ d ∷ []) = refl
short_lem (a ∷ b ∷ d ∷ e ∷ rest) =
    let four : min (length (a ∷ b ∷ d ∷ e ∷ rest)) 4 ≡ 4 = omega arith in rw (four, short) refl

pieces :
    (a b d e f g h : List ℕ)
    → (((((a ++ b) ++ d) ++ e) ++ f) ++ g) ++ h ≡ (a ++ b) ++ (d ++ (e ++ (f ++ (g ++ h))))
pieces a b d e f g h =
    append_assoc ((((a ++ b) ++ d) ++ e) ++ f) g h
    ∙ append_assoc (((a ++ b) ++ d) ++ e) f (g ++ h)
    ∙ append_assoc ((a ++ b) ++ d) e (f ++ (g ++ h))
    ∙ append_assoc (a ++ b) d (e ++ (f ++ (g ++ h)))

-- A message is written or dropped. If the port is free, one line goes to it, the tag, a semicolon,
-- four bytes of the source's name in capitals, filled up with blanks, and the text in brackets, and
-- no message counts as dropped; if it is busy, nothing goes to it and one more message does.
pub log_lem :
    (s : Serial) (level : LogLevel) (source text : List ℕ)
    → (s.busy ≡ false
        → ((log s level source text).sent
            ≡ s.sent
              ++ tag level
              ++ (0x3b
                    ∷ label_byte (get_elem? source 0)
                    ∷ label_byte (get_elem? source 1)
                    ∷ label_byte (get_elem? source 2)
                    ∷ label_byte (get_elem? source 3)
                    ∷ 0x20
                    ∷ 0x5b
                    ∷ text
                  ++ 0x5d ∷ 0x0a ∷ []))
          × ((log s level source text).dropped_messages ≡ s.dropped_messages))
      × (s.busy ≡ true
          → ((log s level source text).sent ≡ s.sent)
            × ((log s level source text).dropped_messages ≡ (s.dropped_messages + 1) % word))
unfolding log write_str drop_message add64
log_lem s level source text = (
  λ free. (
    rw (free, short_lem source) (pieces s.sent (tag level) (0x3b ∷ []) _ (0x20 ∷ 0x5b ∷ []) text _),
    rw free refl,
  ),
  λ busy. (rw busy refl, rw busy refl),
)
