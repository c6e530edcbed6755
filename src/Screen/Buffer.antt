-- ===== src/Screen/Buffer.antt =====
-- Text in a buffer of bytes.
use boba_os.Base.{
  Ram, poke, ℕ, zero, suc, ◌+◌, ◌≤◌, ◌<◌, ◌≡◌, ◌≢◌, refl, ap, ◌∙◌, inl, [], ◌∷◌, length, All, arith,
  ne→==,
}
use boba_os.Memory.{memcpy}
use boba_os.Memory.Copy.{memcpy-at, bounds-within}
use boba_os.Text.{Chars, text}

-- The first `n` characters of the buffer from `a` on.
abbrev pub chars : Ram → (a n : ℕ) → Chars
chars b a zero = []
chars b a (suc n) = b a ∷ chars b (a + 1) n

-- The characters stand in the buffer from `a` on.
abbrev pub Holds : Ram → (a : ℕ) → Chars → Type 0
Holds b a [] = Unit {0}
Holds b a (c ∷ s) = (b a ≡ c) × Holds b (a + 1) s

pub Holds-moved :
    (b b' : Ram) (a a' : ℕ) (s : Chars)
    → ((j : ℕ) → j < length s → b' (a' + j) ≡ b (a + j))
    → Holds b a s
    → Holds b' a' s
Holds-moved b b' a a' [] same h = tt
Holds-moved b b' a a' (c ∷ s) same (first, rest) = (
  ap b' (omega arith) ∙ same 0 (omega arith) ∙ ap b (omega arith) ∙ first,
  Holds-moved b b' (a + 1) (a' + 1) s
      (λ j inside. ap b' (omega arith) ∙ same (j + 1) (omega arith) ∙ ap b (omega arith)) rest,
)

-- Digits moved to the front, with a terminator stored behind them.
pub Holds-front :
    (b : Ram) (dest src size : ℕ) (s : Chars)
    → dest ≤ src
    → length s ≤ size
    → Holds b src s
    → Holds (poke (memcpy b dest src size) (dest + length s) 0) dest s
Holds-front b dest src size s behind fits h =
    Holds-moved b (poke (memcpy b dest src size) (dest + length s) 0) src dest s
      (λ j inside.
        rw
          (
            ne→== (dest + j) (dest + length s) (omega arith),
            memcpy-at b dest src size (dest + j) (inl behind),
            bounds-within dest size (dest + j) (omega arith) (omega arith),
          )
          (ap b (omega arith)))
      h

-- A text that stands in the buffer, with a terminator behind it, is the buffer's text.
pub text-chars :
    (b : Ram) (a n : ℕ) (s : Chars)
    → Holds b a s
    → All (λ c. c ≢ 0) s
    → b (a + length s) ≡ 0
    → length s < n
    → text (chars b a n) ≡ s
unfolding text
text-chars b a zero s h plain end fits = absurd (omega arith)
text-chars b a (suc n) [] h plain end fits =
    let at_end : b a ≡ 0 = ap b (omega arith) ∙ end in rw at_end refl
text-chars b a (suc n) (c ∷ s) (first, rest) (some_char, plain) end fits =
    rw (first, ne→== c 0 some_char)
      (ap (λ t. c ∷ t)
        (text-chars b (a + 1) n s rest plain (ap b (omega arith) ∙ end) (omega arith)))
