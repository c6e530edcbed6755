-- ===== src/PathTracer/Plain.antt =====
-- The characters of names, and names copied into buffers of zeros.
use boba_os.Base.{
  ℕ, ◌-◌, ◌≤◌, ◌≡◌, ◌≢◌, refl, ap, ◌∙◌, some, ◌==◌, [], ◌∷◌, ◌++◌, length, take, replicate, All,
  arith, Bool-cases, le→leb, inl, inr, drop-replicate, length-replicate,
}
use boba_os.Text.{Chars, text, strlen, strncpy}
use boba_os.Text.Copy.{strlen-text, strncpy-text}
use boba_os.PathTracer.Spec.{PlainChar}

abbrev pub NonZero : ℕ → Type 0
NonZero c = c ≢ 0

text-plain : (s : Chars) → All PlainChar s → text s ≡ s
unfolding text
text-plain [] h = refl
text-plain (c ∷ s) h = ground (arith, text-plain s h.1)

pub text-stops : (s t : Chars) → All NonZero s → text (s ++ 0 ∷ t) ≡ s
unfolding text
text-stops [] t h = refl
text-stops (c ∷ s) t h = ground (arith, text-stops s t h.1)

pub text-NonZero : (s : Chars) → All NonZero (text s)
unfolding text
text-NonZero [] = tt
text-NonZero (c ∷ s) = elim (Bool-cases (c == 0)) [
  | inl e ↦ rw e tt
  | inr e ↦ rw e (ground arith, text-NonZero s)
]

pub strlen-plain : (s : Chars) → All PlainChar s → strlen s ≡ length s
strlen-plain s h = strlen-text s ∙ ap length (text-plain s h)

take-all : (s : Chars) → take (length s) s ≡ s
take-all [] = refl
take-all (c ∷ s) = ap (λ t. c ∷ t) (take-all s)

-- A name copied into a buffer of zeros.
pub strncpy-name :
    (k : ℕ) (name : Chars)
    → All PlainChar name
    → length name ≤ k
    → strncpy (replicate k 0) name (strlen name) ≡ some (name ++ replicate (k - length name) 0)
strncpy-name k name plain fits =
    strncpy-text (replicate k 0) name (strlen name)
    ∙ rw (
      strlen-plain name plain,
      text-plain name plain,
      take-all name,
      length-replicate {A = ℕ} k 0,
      le→leb (length name) k fits,
      drop-replicate {A = ℕ} (length name) k 0,
    )
