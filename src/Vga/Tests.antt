-- ===== src/Vga/Tests.antt =====
-- The console of src/vga_buffer.rs at the end of a line.
use apogee.Base.{◌+◌, ◌≡◌, refl, [], ◌∷◌, arith}
use apogee.Vga.{ScreenChar, Writer, light_gray, black, color_value, color_code, write_string}
use apogee.Vga.Screen.{write_string-shown}

abbrev blank : ScreenChar
blank = record { ascii_character = 0x20; color_code = 7 }

abbrev writer : Writer
writer = record { column_position = 78; color_code = 7; buffer = λ r k. blank }

default_colour : color_code light_gray black ≡ 7
unfolding color_code color_value
default_colour = refl

write_string-shown_example :
    ((write_string writer (0x68 ∷ 0x69 ∷ [])).buffer 24 79
      ≡ record blank { ascii_character = 0x69 })
    × ((write_string writer (0x68 ∷ 0x69 ∷ [])).column_position ≡ 78 + 2)
write_string-shown_example =
    write_string-shown writer (0x68 ∷ 0x69 ∷ []) 24 79
      ((omega arith, omega arith), ((omega arith, omega arith), tt)) (omega arith)
