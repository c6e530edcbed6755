-- ===== src/Screen.antt =====
-- kernel/print.c, kernel/koal/koal.c and kernel/terminal.c: numbers as text, the selection of an
-- output, and the cursor and the cells of the text screen.
pub mod Buffer
pub mod Numbers
pub mod Paper
pub mod Cursor
mod Tests
use boba_os.Base.{
  Ram, poke, ℕ, zero, suc, ◌+◌, ◌-◌, ◌*◌, ◌/◌, ◌%◌, ◌^◌, Option, none, some, Bool, true, false,
  ◌&&◌, if◌then◌else◌, ltb, leb, ◌==◌, List, [], ◌∷◌, ◌++◌, length, Result, ok, err, Errno,
}
use boba_os.Memory.{memcpy, Order, below, same, above}
use boba_os.Text.{Chars, strcmp}

-- The loops of strToUInt and strToHex: in round `i` the last digit of `num` is stored at
-- index last - i. Their result is the index at the end, behind the last round where no round found
-- the number used up, and the buffer.
pub digit_loop : (base last : ℕ) (digit : ℕ → ℕ) (rounds num i : ℕ) → Ram → ℕ × Ram
digit_loop base last digit zero num i b = (i, b)
digit_loop base last digit (suc k) num i b =
    let b' = poke b (last - i) (digit (num % base)) in
    let rest = digit_loop base last digit k (num / base) (i + 1) b' in
    if num / base == 0 then (i, b') else rest

-- "0123456789"
abbrev pub decimal_digit : ℕ → ℕ
decimal_digit d = b'0' + d

-- What strToUInt does behind its loop. With 20 at the end of it memcpy would read before the buffer:
-- `none`.
abbrev pub uint_to_front : ℕ × Ram → Option Ram
uint_to_front (i, b) =
    if ltb 19 i then none else some (poke (memcpy b 0 (19 - i) (i + 1)) (i + 1) 0)

-- `b` is what the buffer holds before.
unfoldable pub str_to_uint : (num : ℕ) → (b : Ram) → Option Ram
unfolding digit_loop
str_to_uint num b = uint_to_front (digit_loop 10 19 decimal_digit 20 num 0 b)

-- "0123456789ABCDEF"
abbrev pub hex_digit : ℕ → ℕ
hex_digit d = if ltb d 10 then b'0' + d else b'A' + (d - 10)

-- memcpy moves the digits behind "0x", and the two bytes behind them.
abbrev pub hex_to_front : ℕ × Ram → Ram
hex_to_front (i, b) = poke (memcpy b 2 (22 - i) (i + 1)) (i + 1) 0

unfoldable pub str_to_hex : (num : ℕ) → (b : Ram) → Ram
unfolding digit_loop
str_to_hex num b = hex_to_front (digit_loop 16 22 hex_digit 20 num 2 (poke (poke b 0 b'0') 1 b'x'))

-- BOBAOS_MAX_KOAL_ENTRIES
abbrev pub max_koal_entries : ℕ
max_koal_entries = 12

-- The globals of koal.c: the names of the outputs, and the index of the selected one, if any.
pub record Koal : Type 0 where
  pub outputs : List Chars
  pub selected : Option ℕ

unfoldable pub koal_attach : Koal → (name : Chars) → Result Koal
koal_attach k name =
    if leb max_koal_entries (length k.outputs)
    then err Errno.enmem
    else ok (record k { outputs = k.outputs ++ name ∷ [] })

unfoldable pub index_of : (name : Chars) → List Chars → (i : ℕ) → Option ℕ
index_of name [] i = none
index_of name (n ∷ ns) i =
    let rest = index_of name ns (i + 1) in
    elim (strcmp name n) [ below ↦ rest | same ↦ some i | above ↦ rest ]

unfoldable pub koal_select_current_output_by_name : Koal → (name : Chars) → Result Koal
koal_select_current_output_by_name k name = elim (index_of name k.outputs 0) [
  | none ↦ err Errno.enfound
  | some i ↦ ok (record k { selected = some i })
]

abbrev pub vga_width : ℕ
vga_width = 80

abbrev pub vga_height : ℕ
vga_height = 25

-- The cursor, and the cells of the screen: a character below its attributes.
pub record Terminal : Type 0 where
  pub row : ℕ
  pub col : ℕ
  pub cells : ℕ → ℕ

unfoldable pub terminal_clear : Terminal → (color : ℕ) → Terminal
terminal_clear t color = record {
  row = 0;
  col = 0;
  cells = λ i.
      if ltb i (vga_width * vga_height) then (color * 2 ^ 12 + 15 * 2 ^ 8) % 2 ^ 16 else t.cells i;
}

-- The lines move up, and the last one keeps its attributes alone.
unfoldable pub terminal_move_up : Terminal → Terminal
terminal_move_up t = record t {
  row = t.row - 1;
  cells = λ i.
      if ltb i (vga_width * (vga_height - 1))
      then t.cells (i + vga_width)
      else (if ltb i (vga_width * vga_height) then t.cells i - t.cells i % 256 else t.cells i);
}

unfoldable pub wrap : Terminal → Terminal
wrap t = if t.col == vga_width then record t { row = t.row + 1; col = 0 } else t

unfoldable pub scroll : Terminal → Terminal
unfolding terminal_move_up
scroll t = if t.row == vga_height then terminal_move_up t else t

-- `+= c` of a signed char on a uint16_t cell.
abbrev pub add_char : (cell c : ℕ) → ℕ
add_char cell c = (cell + (if ltb c 128 then c else 2 ^ 16 - 256 + c)) % 2 ^ 16

unfoldable pub put : Terminal → (c : ℕ) → Terminal
put t c =
    let i = t.col + t.row * vga_width in
    if c == b'\n' then record t { row = t.row + 1; col = 0 } else record t {
      col = t.col + 1;
      cells = λ k. if k == i then add_char (t.cells k) c else t.cells k;
    }

unfoldable pub terminal_putchar : Terminal → (c : ℕ) → Terminal
unfolding put scroll wrap
terminal_putchar t c = put (scroll (wrap t)) c

unfoldable pub terminal_print : Terminal → Chars → Terminal
terminal_print t [] = t
terminal_print t (c ∷ s) =
    let rest = terminal_print (terminal_putchar t c) s in if c == 0 then t else rest
