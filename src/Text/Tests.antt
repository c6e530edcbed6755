-- ===== src/Text/Tests.antt =====
-- Texts for the theorems about string.c.
use boba_os.Base.{true, false, ◌⊎◌, ◌≤◌, ◌↔◌, ◌≡◌, refl, some, none, [], ◌∷◌}
use boba_os.Memory.{below, same}
use boba_os.Text.{
  Chars, text, strlen, strcmp, char_order, strncpy, to_number, to_upper_case, find_char,
}
use boba_os.Text.Compare.{strcmp-same_iff}
use boba_os.Text.Copy.{to_upper_case-fits}

-- "AB", a terminator and a byte behind it.
abbrev ab : Chars
ab = b'A' ∷ b'B' ∷ 0 ∷ 9 ∷ []

abbrev ac : Chars
ac = b'A' ∷ b'C' ∷ []

strlen-ab : strlen ab ≡ 2
unfolding strlen
strlen-ab = refl

strcmp-ab : strcmp ab ac ≡ below
unfolding strcmp char_order
strcmp-ab = refl

-- A byte from 128 on is below every other.
strcmp_signed : strcmp (200 ∷ []) ac ≡ below
unfolding strcmp char_order
strcmp_signed = refl

strncpy-ab : strncpy (1 ∷ 2 ∷ 3 ∷ []) ab 3 ≡ some (b'A' ∷ b'B' ∷ 3 ∷ [])
unfolding strncpy
strncpy-ab = refl

-- The terminator goes behind the buffer of two bytes.
to_upper_case-ab : to_upper_case true ab 2 ≡ none
unfolding to_upper_case
to_upper_case-ab = refl

to_number_four : to_number b'4' ≡ 252
unfolding to_number
to_number_four = refl

find_char_b : find_char ab b'B' ≡ some 1
unfolding find_char
find_char_b = refl

strcmp-same_iff_example : (strcmp ab ac ≡ same) ↔ (text ab ≡ text ac)
strcmp-same_iff_example = strcmp-same_iff ab ac

to_upper_case-fits_example : (to_upper_case true ab 2 ≡ none) ↔ ((true ≡ false) ⊎ (2 ≤ strlen ab))
to_upper_case-fits_example = to_upper_case-fits true ab 2
