-- ===== src/Screen/Paper.antt =====
-- What the screen of terminal.c should show: a sheet of paper with lines of 80 characters and with
-- no end, of which the screen is a window of 25 lines.
use boba_os.Base.{ℕ, ◌+◌, ◌*◌, ◌<◌, ◌≤◌, ◌≡◌, ◌⊎◌, if◌then◌else◌, ◌==◌, [], ◌∷◌}
use boba_os.Text.{Chars}
use boba_os.Screen.{Terminal}

-- The place of the next character, and the character at each place, 0 where there is none.
pub record Paper : Type 0 where
  pub line : ℕ
  pub column : ℕ
  pub glyphs : ℕ → ℕ

abbrev pub no_text : Paper
no_text = record { line = 0; column = 0; glyphs = λ k. 0 }

-- A full line is left when something comes behind it, be it a line break.
abbrev pub next_place : Paper → Paper
next_place p = if p.column == 80 then record p { line = p.line + 1; column = 0 } else p

abbrev pub written : Paper → (c : ℕ) → Paper
written p c = if c == b'\n' then record p { line = p.line + 1; column = 0 } else record p {
  column = p.column + 1;
  glyphs = λ k. if k == p.line * 80 + p.column then c else p.glyphs k;
}

unfoldable pub write : Paper → (c : ℕ) → Paper
write p c = written (next_place p) c

unfoldable pub write_text : Paper → Chars → Paper
write_text p [] = p
write_text p (c ∷ s) = write_text (write p c) s

-- The screen shows the paper from line `top` on, each cell with the character of its place below
-- the attributes `attr`; there is nothing from the cursor on. The cursor is the place of the next
-- character, on the screen or at the start of the line below it, and lines are above the screen
-- only where the cursor has come to the last line.
pub record Shows (t : Terminal) (attr top : ℕ) (p : Paper) : Type 0 where
  pub row : t.row + top ≡ p.line
  pub col : t.col ≡ p.column
  pub cells : (i : ℕ) → i < 2000 → t.cells i ≡ attr * 256 + p.glyphs (top * 80 + i)
  pub blank : (k : ℕ) → p.line * 80 + p.column ≤ k → p.glyphs k ≡ 0
  pub small : (k : ℕ) → p.glyphs k < 128
  pub on_screen : ((t.row ≤ 24) × (t.col ≤ 80)) ⊎ ((t.row ≡ 25) × (t.col ≡ 0))
  pub window : (top ≡ 0) ⊎ (24 ≤ t.row)
