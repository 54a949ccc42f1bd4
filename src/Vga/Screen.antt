-- ===== src/Vga/Screen.antt =====
-- What the operations of src/vga_buffer.rs do to the screen.
use apogee.Base.{
  ℕ, zero, suc, ◌+◌, ◌-◌, ◌≤◌, ◌<◌, ◌≡◌, refl, List, [], ◌∷◌, ◌&&◌, ltb, leb, ◌==◌, if◌then◌else◌,
  length, All, arith,
}
use apogee.Vga.{
  ScreenChar, Buffer, Writer, write_cell, clear_from, clear_row, copy_from, scroll_from, new_line,
  put_byte, write_byte, write_string,
}

clear_from_lem :
    (blank : ScreenChar) (row col left : ℕ) (chars : Buffer) (r k : ℕ)
    → clear_from blank row col left chars r k
      ≡ (if r == row && leb col k && ltb k (col + left) then blank else chars r k)
unfolding clear_from write_cell
clear_from_lem blank row col zero chars r k = ground arith
clear_from_lem blank row col (suc left) chars r k =
    ground (arith, clear_from_lem blank row (suc col) left (write_cell chars row col blank) r k)

copy_from_lem :
    (row col left : ℕ) (chars : Buffer) (r k : ℕ)
    → 1 ≤ row
    → copy_from row col left chars r k
      ≡ (if r == (row - 1) && leb col k && ltb k (col + left) then chars row k else chars r k)
unfolding copy_from write_cell
copy_from_lem row col zero chars r k h = ground arith
copy_from_lem row col (suc left) chars r k h =
    ground (
      arith,
      copy_from_lem row (suc col) left (write_cell chars (row - 1) col (chars row col)) r k h,
    )

scroll_from_lem :
    (row left : ℕ) (chars : Buffer) (r k : ℕ)
    → 1 ≤ row
    → k < 80
    → scroll_from row left chars r k
      ≡ (if leb row (suc r) && ltb (suc r) (row + left) then chars (suc r) k else chars r k)
unfolding scroll_from
scroll_from_lem row zero chars r k h c = ground arith
scroll_from_lem row (suc left) chars r k h c = ground (
  arith,
  scroll_from_lem (suc row) left (copy_from row 0 80 chars) r k (omega arith) c,
  copy_from_lem row 0 80 chars r k h,
  copy_from_lem row 0 80 chars (suc r) k h,
)

-- A new line moves every row of the screen up by one, blanks the last row in the current colour
-- and puts the cursor at its start.
pub new_line-scrolls :
    (w : Writer) (r k : ℕ)
    → r < 25
    → k < 80
    → ((new_line w).buffer r k ≡ (
        if r == 24
        then record { ascii_character = 0x20; color_code = w.color_code }
        else w.buffer (suc r) k))
      × ((new_line w).column_position ≡ 0)
      × ((new_line w).color_code ≡ w.color_code)
unfolding new_line clear_row
new_line-scrolls w r k h c =
    let blank : ScreenChar = record { ascii_character = 0x20; color_code = w.color_code } in
    (
      ground (
        arith,
        clear_from_lem blank 24 0 80 (scroll_from 1 24 w.buffer) r k,
        scroll_from_lem 1 24 w.buffer r k (omega arith) c,
      ),
      refl,
      refl,
    )

abbrev pub IsPrintable : ℕ → Type 0
IsPrintable byte = (0x20 ≤ byte) × (byte ≤ 0x7e)

-- What the screen shows at a place after `s` was written over `w` from the cursor on.
abbrev pub shown : Writer → List ℕ → ℕ → ℕ → ScreenChar
shown w [] r k = w.buffer r k
shown w (byte ∷ s) r k =
    if r == 24 && k == w.column_position
    then record { ascii_character = byte; color_code = w.color_code }
    else shown (record w { column_position = suc w.column_position }) s r k

write_byte_printable :
    (w : Writer) (byte : ℕ)
    → IsPrintable byte
    → w.column_position < 80
    → write_byte w byte ≡ put_byte w byte
unfolding write_byte
write_byte_printable w byte p h = ground arith

abbrev at : Writer → ℕ → Buffer → Writer
at w column buffer = record w { column_position = column; buffer = buffer }

-- A cell to the left of the cursor shows through.
shown-write_cell :
    (w : Writer) (s : List ℕ) (column left : ℕ) (char : ScreenChar) (r k : ℕ)
    → left < column
    → shown (at w column (write_cell w.buffer 24 left char)) s r k
      ≡ (if r == 24 && k == left then char else shown (at w column w.buffer) s r k)
unfolding write_cell
shown-write_cell w [] column left char r k h = refl
shown-write_cell w (byte ∷ s) column left char r k h =
    ground (arith, shown-write_cell w s (suc column) left char r k (omega arith))

-- Printable text that fits on the line is written at the cursor, in the current colour; the cursor
-- moves by its length and nothing else on the screen changes.
pub write_string-shown :
    (w : Writer) (s : List ℕ) (r k : ℕ)
    → All IsPrintable s
    → w.column_position + length s ≤ 80
    → ((write_string w s).buffer r k ≡ shown w s r k)
      × ((write_string w s).column_position ≡ w.column_position + length s)
unfolding write_string
write_string-shown w [] r k p h = (refl, omega arith)
write_string-shown w (byte ∷ s) r k (p, ps) h =
    let next : Writer = put_byte w byte in
    let moved : next.column_position ≡ suc w.column_position = unfold put_byte in omega arith in
    let rest = write_string-shown next s r k ps (omega (arith, moved)) in
    let char : ScreenChar = record { ascii_character = byte; color_code = w.color_code } in
    let over : shown next s r k ≡ shown w (byte ∷ s) r k =
      unfold put_byte in
      ground (
        arith,
        shown-write_cell w s (suc w.column_position) w.column_position char r k (omega arith),
      ) in
    let as_is : write_string w (byte ∷ s) ≡ write_string next s =
      ground (arith, write_byte_printable w byte p (omega arith)) in
    ground (arith, as_is, over, rest, moved)

write_byte-column :
    (w : Writer) (byte : ℕ) → w.column_position ≤ 80 → (write_byte w byte).column_position ≤ 80
unfolding write_byte put_byte new_line
write_byte-column w byte h = ground arith

-- The cursor stays on the line, whatever is written.
pub write_string-column :
    (w : Writer) (s : List ℕ) → w.column_position ≤ 80 → (write_string w s).column_position ≤ 80
unfolding write_string
write_string-column w [] h = h
write_string-column w (byte ∷ s) h =
    write_string-column (write_byte w _) s (write_byte-column w _ h)
