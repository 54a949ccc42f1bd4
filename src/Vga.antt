-- ===== src/Vga.antt =====
-- src/vga_buffer.rs: the text console. The buffer at 0xb8000 is a function from a row and a column
-- to the character there; the lock of the writer is not modelled, a call of `_print` is one step.
pub mod Screen
mod Tests
use apogee.Base.{
  ℕ, zero, suc, ◌+◌, ◌-◌, ◌*◌, ◌/◌, ◌%◌, List, [], ◌∷◌, ◌&&◌, ◌||◌, ltb, leb, ◌==◌, if◌then◌else◌,
  bit_or,
}

abbrev pub buffer_height : ℕ
buffer_height = 25

abbrev pub buffer_width : ℕ
buffer_width = 80

pub record ScreenChar : Type 0 where
  pub ascii_character : ℕ
  pub color_code : ℕ

abbrev pub Buffer : Type 0
Buffer = ℕ → ℕ → ScreenChar

pub data Color : Type 0 where
  black : Color
  blue : Color
  green : Color
  cyan : Color
  red : Color
  magenta : Color
  brown : Color
  light_gray : Color
  dark_gray : Color
  light_blue : Color
  light_green : Color
  light_cyan : Color
  light_red : Color
  pink : Color
  yellow : Color
  white : Color

unfoldable pub color_value : Color → ℕ
color_value black = 0
color_value blue = 1
color_value green = 2
color_value cyan = 3
color_value red = 4
color_value magenta = 5
color_value brown = 6
color_value light_gray = 7
color_value dark_gray = 8
color_value light_blue = 9
color_value light_green = 10
color_value light_cyan = 11
color_value light_red = 12
color_value pink = 13
color_value yellow = 14
color_value white = 15

-- `ColorCode::new`
unfoldable pub color_code : Color → Color → ℕ
unfolding color_value
color_code foreground background =
    bit_or (color_value background * 16 % 256) (color_value foreground)

pub record Writer : Type 0 where
  pub column_position : ℕ
  pub color_code : ℕ
  pub buffer : Buffer

unfoldable pub set_color : Writer → Color → Color → Writer
set_color w foreground background = record w { color_code = color_code foreground background }

-- `self.buffer.chars[row][col].write(char)`
unfoldable pub write_cell : Buffer → ℕ → ℕ → ScreenChar → Buffer
write_cell chars row col char r k = if r == row && k == col then char else chars r k

-- The loop of `clear_row`, from column `col` on.
unfoldable pub clear_from : ScreenChar → ℕ → ℕ → ℕ → Buffer → Buffer
clear_from blank row col zero chars = chars
clear_from blank row col (suc left) chars =
    clear_from blank row (suc col) left (write_cell chars row col blank)

unfoldable pub clear_row : Writer → ℕ → Writer
clear_row w row =
    let blank : ScreenChar = record { ascii_character = 0x20; color_code = w.color_code } in
    record w { buffer = clear_from blank row 0 buffer_width w.buffer }

-- The inner and the outer loop of `new_line`.
unfoldable pub copy_from : ℕ → ℕ → ℕ → Buffer → Buffer
copy_from row col zero chars = chars
copy_from row col (suc left) chars =
    copy_from row (suc col) left (write_cell chars (row - 1) col (chars row col))

unfoldable pub scroll_from : ℕ → ℕ → Buffer → Buffer
scroll_from row zero chars = chars
scroll_from row (suc left) chars = scroll_from (suc row) left (copy_from row 0 buffer_width chars)

unfoldable pub new_line : Writer → Writer
new_line w =
    let scrolled : Writer = record w { buffer = scroll_from 1 (buffer_height - 1) w.buffer } in
    record (clear_row scrolled (buffer_height - 1)) { column_position = 0 }

-- The write of a byte other than a newline at the cursor, which is on the last row.
unfoldable pub put_byte : Writer → ℕ → Writer
put_byte w byte =
    let char : ScreenChar = record { ascii_character = byte; color_code = w.color_code } in
    record w {
      buffer = write_cell w.buffer (buffer_height - 1) w.column_position char;
      column_position = w.column_position + 1;
    }

unfoldable pub write_byte : Writer → ℕ → Writer
write_byte w byte =
    if byte == 0xa
    then new_line w
    else put_byte (if leb buffer_width w.column_position then new_line w else w) byte

unfoldable pub write_string : Writer → List ℕ → Writer
write_string w [] = w
write_string w (byte ∷ bytes) =
    let shown = if (leb 0x20 byte && leb byte 0x7e) || byte == 0xa then byte else 0xfe in
    write_string (write_byte w shown) bytes

-- What `print!("{}", byte as char)` passes to `write_string`: the UTF-8 of U+00 to U+FF.
unfoldable pub utf8 : ℕ → List ℕ
utf8 byte = if ltb byte 0x80 then byte ∷ [] else (0xc0 + byte / 64) ∷ (0x80 + byte % 64) ∷ []
