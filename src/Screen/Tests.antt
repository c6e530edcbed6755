-- ===== src/Screen/Tests.antt =====
-- Numbers, and a screen with one character.
use mathlib.Core.Option
use boba_os.Base.{Ram, ◌≡◌, refl, some, [], ◌∷◌, arith, All, inl, ℕ}
use boba_os.Memory.{memcpy}
use boba_os.Text.{Chars, text}
use boba_os.Screen.{
  Terminal, str_to_uint, str_to_hex, terminal_putchar, terminal_print, terminal_clear, wrap,
}
use boba_os.Screen.Buffer.{chars}
use boba_os.Screen.Numbers.{value, decimal, hexadecimal, str_to_uint-value}
use boba_os.Screen.Paper.{Paper, no_text, write, write_text, Shows}
use boba_os.Screen.Cursor.{Small, top_of, terminal_putchar-Shows, terminal_print-Shows}

-- What the buffers hold before.
abbrev sevens : Ram
sevens a = 7

uint_1204 :
    Option.map (λ out. text (chars out 0 32)) (str_to_uint 1204 sevens)
    ≡ some (b'1' ∷ b'2' ∷ b'0' ∷ b'4' ∷ [])
unfolding str_to_uint memcpy text
uint_1204 = refl

hex_beef :
    text (chars (str_to_hex 0xBEEF sevens) 0 32) ≡ b'0' ∷ b'x' ∷ b'B' ∷ b'E' ∷ b'E' ∷ b'F' ∷ []
unfolding str_to_hex memcpy text
hex_beef = refl

str_to_uint-value_example :
    ((out : Ram) × (str_to_uint 1204 sevens ≡ some out)
      × (value 10 0 decimal (text (chars out 0 32)) ≡ 1204))
    × ((s : Chars) × (text (chars (str_to_hex 1204 sevens) 0 32) ≡ b'0' ∷ b'x' ∷ s)
        × (value 16 0 hexadecimal s ≡ 1204))
str_to_uint-value_example = str_to_uint-value 1204 sevens (omega arith)

-- The cursor at the end of the last line of an empty screen.
abbrev full : Terminal
full = record { row = 24; col = 80; cells = λ i. 0x5F00 }

-- Lines that are blank, up to the end of the last one on the screen.
abbrev lines : Paper
lines = record { line = 24; column = 80; glyphs = λ k. 0 }

full-Shows : Shows full 95 0 lines
full-Shows = record {
  row = refl;
  col = refl;
  cells = λ i small. refl;
  blank = λ k low. refl;
  small = λ k. omega arith;
  on_screen = ground arith;
  window = inl refl;
}

terminal_putchar-Shows_example :
    Shows (terminal_putchar full b'x') 95 (top_of (wrap full) 0) (write lines b'x')
terminal_putchar-Shows_example =
    terminal_putchar-Shows full 95 0 lines b'x' full-Shows (omega arith) (omega arith)

top_of-full : top_of (wrap full) 0 ≡ 1
unfolding wrap
top_of-full = refl

x_line-Small : All Small (text (b'x' ∷ b'\n' ∷ []))
unfolding text
x_line-Small = (omega arith, (omega arith, tt))

terminal_print-Shows_example :
    (top : ℕ) × Shows
      (terminal_print (terminal_clear full 5) (b'x' ∷ b'\n' ∷ []))
      95
      top
      (write_text no_text (text (b'x' ∷ b'\n' ∷ [])))
terminal_print-Shows_example = terminal_print-Shows full 5 (b'x' ∷ b'\n' ∷ []) x_line-Small
