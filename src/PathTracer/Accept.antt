-- ===== src/PathTracer/Accept.antt =====
-- createPathTracer on the paths of the specification, and on a path that names only a volume.
use mathlib.Core.List.{append_assoc, append-nil}
use boba_os.Base.{
  ℕ, ◌+◌, ◌<◌, ◌≤◌, ◌≡◌, ◌≢◌, refl, ap, sym, ◌∙◌, Option, none, some, Bool, true, List, [], ◌∷◌,
  ◌++◌, length, length-append, All, ok, arith, lt→leb, ne→==,
}
use boba_os.Text.{Chars, text}
use boba_os.Text.Copy.{strlen-text}
use boba_os.PathTracer.{
  part, directory, file, root_of, with_part, last_part, trace_loop, check_volume_label,
  create_path_tracer, max_path_size,
}
use boba_os.PathTracer.Spec.{PlainChar, IsName, OptionName, parts_of, body, path_of}
use boba_os.PathTracer.Plain.{NonZero}
use boba_os.PathTracer.Print.{valid_label}

last_part-name : (f : Chars) → 0 < length f → last_part f ≡ part f file ∷ []
last_part-name [] h = absurd (omega arith)
last_part-name (c ∷ f) h = refl

module _ (alloc : ℕ → Bool) where
  trace_loop-plain :
      (n c : ℕ) (buf rest : Chars)
      → c ≢ b'/'
      → length buf < 254
      → trace_loop alloc n buf (c ∷ rest) ≡ trace_loop alloc n (buf ++ c ∷ []) rest
  unfolding trace_loop
  trace_loop-plain n c buf rest ne short =
      rw (ne→== (length buf) 254 (omega arith), ne→== c b'/' ne)

  trace_loop-name :
      (d : Chars) (n : ℕ) (buf rest : Chars)
      → All PlainChar d
      → length buf + length d ≤ 254
      → trace_loop alloc n buf (d ++ rest) ≡ trace_loop alloc n (buf ++ d) rest
  trace_loop-name [] n buf rest plain short =
      ap (λ b. trace_loop alloc n b rest) (sym (append-nil buf))
  trace_loop-name (c ∷ d) n buf rest plain short =
      trace_loop-plain n c buf (d ++ rest) plain.0.0 (omega arith)
      ∙ trace_loop-name d n (buf ++ c ∷ []) rest plain.1 (omega (arith, length-append buf (c ∷ [])))
      ∙ ap (λ b. trace_loop alloc n b rest) (append_assoc buf (c ∷ []) d)

  trace_loop-slash :
      (n : ℕ) (buf rest : Chars)
      → 0 < length buf
      → alloc n ≡ true
      → trace_loop alloc n buf (b'/' ∷ rest)
        ≡ with_part (part buf directory) (trace_loop alloc (n + 1) [] rest)
  unfolding trace_loop
  trace_loop-slash n buf rest full got = ground arith

  trace_loop-body :
      (ds : List Chars) (f : Option Chars) (n : ℕ)
      → ((k : ℕ) → alloc k ≡ true)
      → All IsName ds
      → OptionName f
      → length (body ds f) ≤ 254
      → trace_loop alloc n [] (body ds f) ≡ ok (parts_of ds f)
  unfolding trace_loop
  trace_loop-body [] none n got hs h short = refl
  trace_loop-body [] (some f) n got hs h short =
      ap (λ b. trace_loop alloc n [] b) (sym (append-nil f))
      ∙ trace_loop-name f n [] [] h.1 (omega arith)
      ∙ ap ok (last_part-name f h.0)
  trace_loop-body (d ∷ ds) f n got hs h short =
      let whole = length-append d (b'/' ∷ body ds f) in
      trace_loop-name d n [] (b'/' ∷ body ds f) hs.0.1 (omega (arith, whole))
      ∙ trace_loop-slash n d (body ds f) hs.0.0 (got n)
      ∙ ap (with_part (part d directory))
          (trace_loop-body ds f (n + 1) got hs.1 h (omega (arith, whole)))

plain-NonZero : (s : Chars) → All PlainChar s → All NonZero s
plain-NonZero [] h = tt
plain-NonZero (c ∷ s) h = (h.0.1, plain-NonZero s h.1)

All-append : (s t : Chars) → All NonZero s → All NonZero t → All NonZero (s ++ t)
All-append [] t h k = k
All-append (c ∷ s) t h k = (h.0, All-append s t h.1 k)

body-NonZero :
    (ds : List Chars) (f : Option Chars) → All IsName ds → OptionName f → All NonZero (body ds f)
body-NonZero [] none hs h = tt
body-NonZero [] (some f) hs h = plain-NonZero f h.1
body-NonZero (d ∷ ds) f hs h =
    All-append d (b'/' ∷ body ds f) (plain-NonZero d hs.0.1)
      (ground arith, body-NonZero ds f hs.1 h)

text-NonZero_lem : (s : Chars) → All NonZero s → text s ≡ s
unfolding text
text-NonZero_lem [] h = refl
text-NonZero_lem (c ∷ s) h = ground (arith, text-NonZero_lem s h.1)

-- A path of the form C:/d/…/d/f whose names are not empty and hold neither a slash nor a
-- terminator, shorter than 255 characters and on a volume that exists, is accepted and taken apart
-- into its names, if no allocation fails. Where it names only the volume, as C:/ does, the tracer
-- points to a root that was freed.
pub create_path_tracer-path_of :
    (volume_exists alloc : ℕ → Bool) (label : ℕ) (ds : List Chars) (f : Option Chars)
    → check_volume_label label ≡ true
    → volume_exists label ≡ true
    → ((k : ℕ) → alloc k ≡ true)
    → All IsName ds
    → OptionName f
    → length (path_of label ds f) < max_path_size
    → create_path_tracer volume_exists alloc (path_of label ds f)
      ≡ ok (record { label = label; root = root_of (parts_of ds f) })
unfolding create_path_tracer
create_path_tracer-path_of volume_exists alloc label ds f valid exists got hs h short =
    let nonzero : All NonZero (path_of label ds f) =
      (valid_label label valid, (ground arith, (ground arith, body-NonZero ds f hs h))) in
    let same = text-NonZero_lem (path_of label ds f) nonzero in
    rw (
      valid,
      strlen-text (path_of label ds f),
      same,
      lt→leb (length (path_of label ds f)) max_path_size short,
      exists,
      got 0,
      got 1,
      trace_loop-body alloc ds f 2 got hs h (omega arith),
    )
