-- ===== src/Screen/Cursor.antt =====
-- The cursor and the cells of terminal.c show the text that is printed.
use boba_os.Base.{
  ℕ, ◌+◌, ◌*◌, ◌%◌, ◌<◌, ◌≤◌, ◌≡◌, refl, sym, ap, ◌∙◌, Bool-cases, inl, inr, ◌==◌, [], ◌∷◌, arith,
  true, false, if◌then◌else◌, lt→ltb, le→ltb, ==→eq, lt-cases, All,
}
use boba_os.Text.{Chars, text}
use boba_os.Screen.{
  Terminal, terminal_clear, terminal_move_up, wrap, scroll, put, terminal_putchar, terminal_print,
  add_char,
}
use boba_os.Screen.Paper.{Paper, no_text, next_place, written, write, write_text, Shows}

-- An ASCII character.
abbrev pub Small : ℕ → Type 0
Small c = c < 128

wrap-Shows :
    (t : Terminal) (attr top : ℕ) (p : Paper)
    → Shows t attr top p
    → Shows (wrap t) attr top (next_place p) × ((wrap t).col ≤ 79)
unfolding wrap
wrap-Shows t attr top p s = elim (Bool-cases (t.col == 80)) [
  | inl full ↦
      let same : (p.column == 80) ≡ true = ap (λ x. x == 80) (sym s.col) ∙ full in
      rw (full, same)
        (
          record {
            row = omega (arith, s.row);
            col = refl;
            cells = s.cells;
            blank = λ k low. s.blank k (ground (arith, s.col));
            small = s.small;
            on_screen = ground (arith, s.on_screen);
            window = ground (arith, s.window);
          },
          omega arith,
        )
  | inr room ↦
      let same : (p.column == 80) ≡ false = ap (λ x. x == 80) (sym s.col) ∙ room in
      rw (room, same) (s, ground (arith, s.on_screen))
]

-- The lines that are above the screen after a scroll.
abbrev pub top_of : Terminal → (top : ℕ) → ℕ
top_of t top = if t.row == 25 then top + 1 else top

-- A cell of the screen that moves up by a line, at the end of the screen a blank one.
moved-Shows :
    (t : Terminal) (attr top : ℕ) (p : Paper)
    → Shows t attr top p
    → t.row ≡ 25
    → t.col ≡ 0
    → (i : ℕ) → i < 2000
    → (terminal_move_up t).cells i ≡ attr * 256 + p.glyphs ((top + 1) * 80 + i)
unfolding terminal_move_up
moved-Shows t attr top p s below_screen at_start i small = elim (lt-cases i 1920) [
  | inl upper ↦ rw (lt→ltb i 1920 upper) (
      s.cells (i + 80) (omega arith)
      ∙ ap (λ k. attr * 256 + p.glyphs k) {x = top * 80 + (i + 80)} (omega arith))
  | inr last ↦
      let none_before = s.small (top * 80 + i) in
      let nothing = s.blank ((top + 1) * 80 + i) (omega (arith, s.row, s.col)) in
      let cell = s.cells i small in rw (le→ltb i 1920 last, lt→ltb i 2000 small) (omega arith)
]

scroll-Shows :
    (t : Terminal) (attr top : ℕ) (p : Paper)
    → Shows t attr top p
    → t.col ≤ 79
    → Shows (scroll t) attr (top_of t top) p × ((scroll t).row ≤ 24) × ((scroll t).col ≤ 79)
unfolding scroll terminal_move_up
scroll-Shows t attr top p s inside = elim (Bool-cases (t.row == 25)) [
  | inl below_screen ↦ rw below_screen (
    record {
      row = ground (arith, s.row);
      col = s.col;
      cells =
          moved-Shows t attr top p s (==→eq t.row 25 below_screen) (ground (arith, s.on_screen));
      blank = s.blank;
      small = s.small;
      on_screen = ground arith;
      window = inr (ground arith);
    },
    ground arith,
    inside,
  )
  | inr on_it ↦ rw on_it (s, ground (arith, s.on_screen), inside)
]

-- A cell of the screen with a new character at the cursor.
put_cells-Shows :
    (t : Terminal) (attr top : ℕ) (p : Paper) (c i : ℕ)
    → Shows t attr top p
    → attr < 256
    → c < 128
    → i < 2000
    → (if i == t.col + t.row * 80 then add_char (t.cells i) c else t.cells i)
      ≡ attr * 256 + (if top * 80 + i == p.line * 80 + p.column then c else p.glyphs (top * 80 + i))
put_cells-Shows t attr top p c i s word small inside =
    let place : (top * 80 + i == p.line * 80 + p.column) ≡ (i == t.col + t.row * 80) =
      ground (arith, s.row, s.col) in
    elim (Bool-cases (i == t.col + t.row * 80)) [
      | inl here ↦
          let same = ==→eq i (t.col + t.row * 80) here in
          let nothing = s.blank (top * 80 + i) (omega (arith, s.row, s.col)) in
          let cell = s.cells i inside in rw (place, here, lt→ltb c 128 small) (omega arith)
      | inr other ↦ rw (place, other) (s.cells i inside)
    ]

put-Shows :
    (t : Terminal) (attr top : ℕ) (p : Paper) (c : ℕ)
    → Shows t attr top p
    → attr < 256
    → c < 128
    → t.row ≤ 24
    → t.col ≤ 79
    → Shows (put t c) attr top (written p c)
unfolding put
put-Shows t attr top p c s word small on_it inside = elim (Bool-cases (c == b'\n')) [
  | inl newline ↦ rw newline (record {
    row = omega (arith, s.row);
    col = refl;
    cells = s.cells;
    blank = λ k low. s.blank k (omega (arith, s.col));
    small = s.small;
    on_screen = ground arith;
    window = ground (arith, s.window);
  })
  | inr char ↦ rw char (record {
    row = s.row;
    col = ap (λ x. x + 1) s.col;
    cells = λ i on_screen. put_cells-Shows t attr top p c i s word small on_screen;
    blank = λ k low. ground (arith, s.blank k);
    small = λ k. ground (arith, s.small k);
    on_screen = ground arith;
    window = s.window;
  })
]

-- Where the screen shows a sheet of paper from line `top` on and c is a character below 128, it
-- shows the paper after terminalPutchar with c written behind the rest (a line break is a new line,
-- and a full line is left first), from the line below `top` on where the cursor, a full line left,
-- was below the last line, and from `top` on where it was not.
pub terminal_putchar-Shows :
    (t : Terminal) (attr top : ℕ) (p : Paper) (c : ℕ)
    → Shows t attr top p
    → attr < 256
    → c < 128
    → Shows (terminal_putchar t c) attr (top_of (wrap t) top) (write p c)
unfolding terminal_putchar write
terminal_putchar-Shows t attr top p c s word small =
    let (wrapped, inside) = wrap-Shows t attr top p s in
    let (scrolled, on_it, inside') = scroll-Shows (wrap t) attr top (next_place p) wrapped inside in
    put-Shows (scroll (wrap t)) attr (top_of (wrap t) top) (next_place p) c scrolled word small
      on_it inside'

clear-Shows :
    (t : Terminal) (color : ℕ) → Shows (terminal_clear t color) ((color * 16 + 15) % 256) 0 no_text
unfolding terminal_clear
clear-Shows t color = record {
  row = refl;
  col = refl;
  cells = λ i small. rw (lt→ltb i 2000 small) (omega arith);
  blank = λ k low. refl;
  small = λ k. omega arith;
  on_screen = ground arith;
  window = inl refl;
}

print-Shows :
    (t : Terminal) (attr top : ℕ) (p : Paper) (s : Chars)
    → Shows t attr top p
    → attr < 256
    → All Small (text s)
    → (top' : ℕ) × Shows (terminal_print t s) attr top' (write_text p (text s))
unfolding terminal_print write_text text
print-Shows t attr top p [] shows word small = (top, shows)
print-Shows t attr top p (c ∷ s) shows word small = elim (Bool-cases (c == 0)) [
  | inl done ↦ rw done (top, shows)
  | inr more ↦
      let (first, rest) = rw more at small in
      rw more (
        print-Shows (terminal_putchar t c) attr (top_of (wrap t) top) (write p c) s
          (terminal_putchar-Shows t attr top p c shows word first) word rest)
]

-- A text of characters below 128 that is printed on a cleared screen is on it: the screen shows the
-- paper on which the text is written, each of its cells with the character of its place, or none,
-- below the attributes of the color, the cursor is at the end of the text, and lines have left the
-- screen only where the cursor is on the last line or below it.
pub terminal_print-Shows :
    (t : Terminal) (color : ℕ) (s : Chars)
    → All Small (text s)
    → (top : ℕ) × Shows
        (terminal_print (terminal_clear t color) s)
        ((color * 16 + 15) % 256)
        top
        (write_text no_text (text s))
terminal_print-Shows t color s small =
    print-Shows (terminal_clear t color) ((color * 16 + 15) % 256) 0 no_text s (clear-Shows t color)
      (omega arith) small
