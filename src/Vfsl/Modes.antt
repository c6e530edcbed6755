-- ===== src/Vfsl/Modes.antt =====
-- checkMode: the modes that fopen accepts.
use boba_os.Base.{ℕ, ◌≡◌, refl, Bool, true, false, ◌&&◌, ◌||◌, if◌then◌else◌, ◌==◌, [], ◌∷◌, arith}
use boba_os.Text.{Chars, text}
use boba_os.Vfsl.{Mode, mode, no_mode, mode_step, mode_loop, check_mode}

-- All characters are `c`, or `c` or `d`; some character is `c`.
unfoldable pub only : ℕ → Chars → Bool
only c [] = true
only c (x ∷ s) = (x == c) && only c s

unfoldable pub only_two : ℕ → ℕ → Chars → Bool
only_two c d [] = true
only_two c d (x ∷ s) = (x == c || x == d) && only_two c d s

unfoldable pub has : ℕ → Chars → Bool
has c [] = false
has c (x ∷ s) = x == c || has c s

read-only :
    (s : Chars)
    → mode_loop (mode true false false) s
      ≡ (if only b'r' (text s) then mode true false false else no_mode)
unfolding mode_loop mode_step only text
read-only [] = refl
read-only (c ∷ s) = ground (arith, read-only s)

writing :
    (w a : Bool) (s : Chars)
    → (w || a) ≡ true
    → mode_loop (mode false w a) s ≡ (
        if only_two b'w' b'a' (text s)
        then mode false (w || has b'w' (text s)) (a || has b'a' (text s))
        else no_mode)
unfolding mode_loop mode_step only_two has text
writing true true [] h = refl
writing true false [] h = refl
writing false true [] h = refl
writing false false s h = absurd (ground arith)
writing true true (c ∷ s) h = ground (arith, writing true true s refl)
writing true false (c ∷ s) h = ground (arith, writing true true s refl, writing true false s refl)
writing false true (c ∷ s) h = ground (arith, writing true true s refl, writing false true s refl)

-- What a mode string means: some r and nothing else reads; some w and a and nothing else writes,
-- and appends where an a is among them.
unfoldable pub meaning : Chars → Mode
unfolding only only_two has
meaning s =
    if only b'r' s && has b'r' s
    then mode true false false
    else (if only_two b'w' b'a' s then mode false (has b'w' s) (has b'a' s) else no_mode)

-- checkMode gives each mode string its meaning, and no mode to a string that mixes r with w or a,
-- or has another character, or is empty.
pub check_mode-meaning : (s : Chars) → check_mode s ≡ meaning (text s)
unfolding check_mode mode_loop mode_step meaning only only_two has text
check_mode-meaning [] = refl
check_mode-meaning (c ∷ s) =
    ground (arith, read-only s, writing true false s refl, writing false true s refl)
