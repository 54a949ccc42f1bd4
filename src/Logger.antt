-- ===== src/Logger.antt =====
-- src/logger.rs: lines on the serial port, dropped while another holds the port. The formatted text
-- of a message is an argument, and the bytes that went to the port are its state.
pub mod Line
use apogee.Base.{
  ℕ, zero, suc, ◌+◌, ◌-◌, List, [], ◌∷◌, ◌++◌, Bool, true, false, ◌&&◌, leb, if◌then◌else◌, min,
  length, replicate, add64,
}

-- `try_lock` fails while the port is `busy`.
pub record Serial : Type 0 where
  pub busy : Bool
  pub sent : List ℕ
  pub dropped_messages : ℕ

pub data LogLevel : Type 0 where
  trace : LogLevel
  debug : LogLevel
  info : LogLevel
  warn : LogLevel
  error : LogLevel

unfoldable pub tag : LogLevel → List ℕ
tag trace = 0x54 ∷ 0x52 ∷ 0x43 ∷ []
tag debug = 0x44 ∷ 0x42 ∷ 0x47 ∷ []
tag info = 0x49 ∷ 0x4e ∷ 0x46 ∷ []
tag warn = 0x57 ∷ 0x52 ∷ 0x4e ∷ []
tag error = 0x45 ∷ 0x52 ∷ 0x52 ∷ []

-- `SerialWriter::write_str`
unfoldable pub write_str : Serial → List ℕ → Serial
write_str s text = record s { sent = s.sent ++ text }

unfoldable pub drop_message : Serial → Serial
unfolding add64
drop_message s = record s { dropped_messages = add64 s.dropped_messages 1 }

unfoldable pub print : Serial → List ℕ → Serial
print s text = if s.busy then drop_message s else write_str s text

abbrev pub to_ascii_uppercase : ℕ → ℕ
to_ascii_uppercase b = if leb 0x61 b && leb b 0x7a then b - 0x20 else b

-- The loop over the first `copy` places of the buffer.
unfoldable pub copy_upper : ℕ → List ℕ → List ℕ → List ℕ
copy_upper zero buf bytes = buf
copy_upper (suc copy) [] bytes = []
copy_upper (suc copy) (dst ∷ buf) [] = dst ∷ buf
copy_upper (suc copy) (dst ∷ buf) (src ∷ bytes) = to_ascii_uppercase src ∷ copy_upper copy buf bytes

unfoldable pub short : List ℕ → List ℕ
short source = copy_upper (min (length source) 4) (replicate 4 0x20) source

-- `"{};{} [{}]\n"`, written piece by piece.
unfoldable pub log : Serial → LogLevel → List ℕ → List ℕ → Serial
log s level source text =
    if s.busy
    then drop_message s
    else let a = write_str (write_str s (tag level)) (0x3b ∷ []) in
      let b = write_str (write_str a (short source)) (0x20 ∷ 0x5b ∷ []) in
      write_str (write_str b text) (0x5d ∷ 0x0a ∷ [])
