-- ===== src/PathTracer/Print.antt =====
-- pathTracerGetPathString puts together what createPathTracer took apart.
use mathlib.Core.List.{append_assoc}
use boba_os.Base.{
  ℕ, zero, suc, ◌-◌, ◌<◌, ◌≡◌, ◌≢◌, refl, ap, sym, ◌∙◌, Option, none, some, Bool, true, false,
  if◌then◌else◌, ◌&&◌, leb, ◌==◌, List, [], ◌∷◌, ◌++◌, length, length-append, get_or, drop,
  replicate, All, Result, ok, err, Errno, arith, replicate-eq, take-length, drop-length,
  replicate-pos, guard-ok, check-ok, ok-injective, err-ne-ok, ==→eq,
}
use mathlib.Core.Option
use mathlib.Core.Path.{subst}
use boba_os.Text.{Chars, text, strlen}
use boba_os.Text.Copy.{strlen-text}
use boba_os.PathTracer.{
  Part, PartType, separator, part, directory, file, PathTracer, dangling, root_of, tracer_of,
  trace_loop, check_volume_label, create_path_tracer, max_path_size, print_loop, fill_path_string,
  get_path_string, start_trace,
}
use boba_os.PathTracer.Spec.{PlainChar, IsName, OptionName, parts_of, body, path_of}
use boba_os.PathTracer.Parse.{trace_loop-Read}
use boba_os.PathTracer.Plain.{NonZero, text-stops, text-NonZero, strlen-plain, strncpy-name}

-- One part stored in a buffer of zeros.
print_step :
    (k : ℕ) (name : Chars) (t : PartType) (ps : List Part)
    → All PlainChar name
    → length name < k
    → print_loop (replicate k 0) (part name t ∷ ps)
      ≡ Option.map
          (λ out. name ++ separator t 0 ∷ out)
          (print_loop (replicate (k - length name - 1) 0) ps)
unfolding print_loop
print_step k name t ps plain fits = rw (
  strncpy-name k name plain (omega arith),
  strlen-plain name plain,
  print_loop,
  drop-length name (replicate (k - length name) 0),
  replicate-pos {A = ℕ} (k - length name) 0 (omega arith),
  strlen-plain name plain,
  take-length name (replicate (k - length name) 0),
)

print_loop-body :
    (ds : List Chars) (f : Option Chars) (k : ℕ)
    → All IsName ds
    → OptionName f
    → length (body ds f) < k
    → print_loop (replicate k 0) (parts_of ds f)
      ≡ some (body ds f ++ replicate (k - length (body ds f)) 0)
unfolding print_loop
print_loop-body [] none k hs h fits = ap some (replicate-eq 0 k (k - 0) (omega arith))
print_loop-body [] (some f) k hs h fits =
    print_step k f file [] h.1 fits
    ∙ ap some (ap (λ r. f ++ r) (sym (replicate-pos (k - length f) 0 (omega arith))))
print_loop-body (d ∷ ds) f k hs h fits =
    let k' : ℕ = k - length d - 1 in
    let whole = length-append d (b'/' ∷ body ds f) in
    print_step k d directory (parts_of ds f) hs.0.1 (omega (arith, whole))
    ∙ rw (print_loop-body ds f k' hs.1 h (omega (arith, whole))) (
        ap some (
          sym (append_assoc d (b'/' ∷ body ds f) (replicate (k' - length (body ds f)) 0))
          ∙ ap (λ r. (d ++ b'/' ∷ body ds f) ++ r)
              (replicate-eq 0 (k' - length (body ds f)) (k - length (d ++ b'/' ∷ body ds f))
                (omega (arith, whole)))))

-- What a path is made of that createPathTracer accepts.
pub record Accepted (volume_exists : ℕ → Bool) (path : Chars) (t : PathTracer) : Type 0 where
  pub labelled : check_volume_label t.label ≡ true
  pub exists : volume_exists t.label ≡ true
  pub dirs : List Chars
  pub name : Option Chars
  pub dirs_named : All IsName dirs
  pub name_named : OptionName name
  pub root : t.root ≡ root_of (parts_of dirs name)
  pub whole : text path ≡ path_of t.label dirs name
  pub short : length (text path) < max_path_size

tracer_of-ok :
    (label : ℕ) (r : Result (List Part)) {t : PathTracer}
    → tracer_of label r ≡ ok t
    → (ps : List Part) × (r ≡ ok ps) × (record { label = label; root = root_of ps } ≡ t)
tracer_of-ok label (ok ps) e = (ps, refl, ok-injective e)
tracer_of-ok label (err x) e = absurd (err-ne-ok e)

pub valid_label : (l : ℕ) → check_volume_label l ≡ true → l ≢ 0
unfolding check_volume_label
valid_label l h = ground arith

prefix :
    (path : Chars) (l : ℕ)
    → get_or path 0 0 ≡ l
    → l ≢ 0
    → get_or path 1 0 ≡ b':'
    → get_or path 2 0 ≡ b'/'
    → text path ≡ l ∷ b':' ∷ b'/' ∷ drop 3 (text path)
unfolding text
prefix [] l h0 ne h1 h2 = absurd (ne (sym h0))
prefix (a ∷ []) l h0 ne h1 h2 = absurd (omega arith)
prefix (a ∷ b ∷ []) l h0 ne h1 h2 = absurd (omega arith)
prefix (a ∷ b ∷ c ∷ path) l h0 ne h1 h2 = ground arith

All-drop : (n : ℕ) (s : Chars) → All NonZero s → All NonZero (drop n s)
All-drop zero s h = h
All-drop (suc n) [] h = h
All-drop (suc n) (c ∷ s) h = All-drop n s h.1

&&-both : (a b : Bool) → (a && b) ≡ true → (a ≡ true) × (b ≡ true)
&&-both a b h = (ground arith, ground arith)

-- createPathTracer accepts only paths of the form C:/d/…/d/f, shorter than 255 characters, on a
-- volume that exists, and takes them apart into the names between the slashes.
pub create_path_tracer-Accepted :
    (volume_exists alloc : ℕ → Bool) (path : Chars) {t : PathTracer}
    → create_path_tracer volume_exists alloc path ≡ ok t
    → Accepted volume_exists path t
unfolding create_path_tracer
create_path_tracer-Accepted volume_exists alloc path e =
    let (labelled, e1) = guard-ok Errno.eformat (check_volume_label (get_or path 0 0)) _ e in
    let (short, e2) = check-ok Errno.elong (leb max_path_size (strlen path)) _ e1 in
    let (slashed, e3) =
      guard-ok Errno.eformat (get_or path 1 0 == b':' && get_or path 2 0 == b'/') _ e2 in
    let both = &&-both (get_or path 1 0 == b':') (get_or path 2 0 == b'/') slashed in
    let (exists, e4) = guard-ok Errno.enfound (volume_exists (get_or path 0 0)) _ e3 in
    let (got, e5) = guard-ok Errno.enmem (alloc 0 && alloc 1) _ e4 in
    let (ps, run, made) =
      tracer_of-ok (get_or path 0 0) (trace_loop alloc 2 [] (drop 3 (text path))) e5 in
    let whole =
      prefix path (get_or path 0 0) refl (valid_label (get_or path 0 0) labelled)
        (==→eq (get_or path 1 0) b':' both.0) (==→eq (get_or path 2 0) b'/' both.1) in
    let short' : length (text path) < max_path_size = ground (arith, strlen-text path) in
    let r =
      trace_loop-Read alloc (drop 3 (text path)) 2 [] tt
        (All-drop 3 (text path) (text-NonZero path)) (omega (arith, ap length whole)) run in
    subst (Accepted volume_exists path) made (record {
      labelled = labelled;
      exists = exists;
      dirs = r.dirs;
      name = r.name;
      dirs_named = r.dirs_named;
      name_named = r.name_named;
      root = ap root_of r.taken_apart;
      whole = whole ∙ ap (λ b. get_or path 0 0 ∷ b':' ∷ b'/' ∷ b) r.read;
      short = short';
    })

rooted-trace :
    (t : PathTracer) (ps : List Part)
    → t.root ≡ root_of ps
    → t.root ≢ dangling
    → start_trace t ≡ some ps
unfolding start_trace
rooted-trace t [] e rooted = absurd (rooted e)
rooted-trace t (p ∷ ps) e rooted = rw e

module _ (t : PathTracer) (ds : List Chars) (f : Option Chars) where
  abbrev printed : Chars
  printed = path_of t.label ds f ++ replicate (max_path_size - 3 - length (body ds f)) 0

  fill_path_string-printed :
      All IsName ds
      → OptionName f
      → length (path_of t.label ds f) < max_path_size
      → t.root ≡ root_of (parts_of ds f)
      → t.root ≢ dangling
      → fill_path_string t ≡ some printed
  unfolding fill_path_string
  fill_path_string-printed hs h short e rooted = rw (
    fill_path_string,
    rooted-trace t (parts_of ds f) e rooted,
    print_loop-body ds f (max_path_size - 3) hs h (omega arith),
  )

  text-printed :
      All NonZero (path_of t.label ds f)
      → length (path_of t.label ds f) < max_path_size
      → text printed ≡ path_of t.label ds f
  text-printed nonzero short =
      rw (replicate-pos {A = ℕ} (max_path_size - 3 - length (body ds f)) 0 (omega arith))
        (text-stops (path_of t.label ds f) _ nonzero)

get_path_string-fill :
    (got : Bool) (t : PathTracer) (out : Chars)
    → fill_path_string t ≡ some out
    → get_path_string got t ≡ some (if got then some out else none)
unfolding get_path_string
get_path_string-fill false t out e = refl
get_path_string-fill true t out e = ap (Option.map (λ x. some x)) e

-- The string that pathTracerGetPathString builds for an accepted path is that path, unless the
-- path names only a volume, whose tracer has no part. Where kzalloc gives no buffer the answer is
-- NULL.
pub get_path_string-create :
    (volume_exists alloc : ℕ → Bool) (path : Chars) {t : PathTracer}
    → create_path_tracer volume_exists alloc path ≡ ok t
    → t.root ≢ dangling
    → (out : Chars) × ((got : Bool) → get_path_string got t ≡ some (if got then some out else none))
      × (text out ≡ text path)
get_path_string-create volume_exists alloc path {t} e rooted =
    let a = create_path_tracer-Accepted volume_exists alloc path e in
    let short = rw a.whole at a.short in
    let nonzero = subst (All NonZero) a.whole (text-NonZero path) in
    (
      printed t a.dirs a.name,
      (λ got.
          get_path_string-fill got t (printed t a.dirs a.name) (
            fill_path_string-printed t a.dirs a.name a.dirs_named a.name_named short a.root
              rooted)),
      text-printed t a.dirs a.name nonzero short ∙ sym a.whole,
    )
