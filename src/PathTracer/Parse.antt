-- ===== src/PathTracer/Parse.antt =====
-- createPathTracer accepts exactly the paths of the specification, and takes them apart.
use mathlib.Core.List.{append_assoc, append-nil}
use boba_os.Base.{
  ℕ, ◌+◌, ◌<◌, ◌≡◌, ◌≢◌, refl, ap, sym, ◌∙◌, Option, none, some, Bool, if◌then◌else◌, ◌==◌, List,
  [], ◌∷◌, ◌++◌, length, length-append, All, Result, ok, err, Errno, arith, Bool-cases, inl, inr,
  ne→==, ==→eq, ==→ne, ok-injective, err-ne-ok,
}
use mathlib.Core.Path.{subst}
use boba_os.Text.{Chars, text}
use boba_os.PathTracer.{Part, part, directory, with_part, last_part, trace_loop}
use boba_os.PathTracer.Spec.{PlainChar, IsName, OptionName, parts_of, body}

-- What a run of the loop from `buf` on has read.
pub record Read (buf path : Chars) (ps : List Part) : Type 0 where
  pub dirs : List Chars
  pub name : Option Chars
  pub dirs_named : All IsName dirs
  pub name_named : OptionName name
  pub taken_apart : ps ≡ parts_of dirs name
  pub read : buf ++ path ≡ body dirs name

All-append : (xs ys : Chars) → All PlainChar xs → All PlainChar ys → All PlainChar (xs ++ ys)
All-append [] ys h k = k
All-append (x ∷ xs) ys h k = (h.0, All-append xs ys h.1 k)

last_part-Read : (buf : Chars) → All PlainChar buf → Read buf [] (last_part buf)
last_part-Read [] plain = record {
  dirs = [];
  name = none;
  dirs_named = tt;
  name_named = tt;
  taken_apart = refl;
  read = refl;
}
last_part-Read (c ∷ buf) plain = record {
  dirs = [];
  name = some (c ∷ buf);
  dirs_named = tt;
  name_named = (omega arith, plain);
  taken_apart = refl;
  read = append-nil (c ∷ buf);
}

module _ (alloc : ℕ → Bool) where
  -- A slash ends the current part.
  slash-Read :
      (buf path : Chars) (r : Result (List Part)) {ps : List Part}
      → IsName buf
      → with_part (part buf directory) r ≡ ok ps
      → ((qs : List Part) → r ≡ ok qs → Read [] path qs)
      → Read buf (b'/' ∷ path) ps
  slash-Read buf path (err e) named eq rest = absurd (err-ne-ok eq)
  slash-Read buf path (ok qs) named eq rest =
      let r = rest qs refl in
      record {
        dirs = buf ∷ r.dirs;
        name = r.name;
        dirs_named = (named, r.dirs_named);
        name_named = r.name_named;
        taken_apart = sym (ok-injective eq) ∙ ap (λ tail. part buf directory ∷ tail) r.taken_apart;
        read = ap (λ tail. buf ++ b'/' ∷ tail) r.read;
      }

  shift-Read :
      (c : ℕ) (buf path : Chars) {ps : List Part}
      → Read (buf ++ c ∷ []) path ps
      → Read buf (c ∷ path) ps
  shift-Read c buf path r = record {
    dirs = r.dirs;
    name = r.name;
    dirs_named = r.dirs_named;
    name_named = r.name_named;
    taken_apart = r.taken_apart;
    read = sym (append_assoc buf (c ∷ []) path) ∙ r.read;
  }

  -- The branches of a round that end a part.
  slash-round :
      (n : ℕ) (buf path : Chars) {ps : List Part}
      → All PlainChar buf
      → (if length buf == 0
          then err Errno.eformat
          else (if alloc n
              then with_part (part buf directory) (trace_loop alloc (n + 1) [] path)
              else err Errno.enmem))
        ≡ ok ps
      → ((qs : List Part) → trace_loop alloc (n + 1) [] path ≡ ok qs → Read [] path qs)
      → Read buf (b'/' ∷ path) ps
  slash-round n buf path plain e rest = elim (Bool-cases (length buf == 0)) [
    | inl empty ↦ absurd (err-ne-ok (rw empty at e))
    | inr full ↦ elim (Bool-cases (alloc n)) [
      | inl got ↦
          slash-Read buf path (trace_loop alloc (n + 1) [] path) (ground arith, plain)
            (rw (full, got) at e) rest
      | inr failed ↦ absurd (err-ne-ok (rw (full, failed) at e))
    ]
  ]

  pub trace_loop-Read :
      (path : Chars) (n : ℕ) (buf : Chars) {ps : List Part}
      → All PlainChar buf
      → All (λ c. c ≢ 0) path
      → length buf + length path < 254
      → trace_loop alloc n buf path ≡ ok ps
      → Read buf path ps
  unfolding trace_loop
  trace_loop-Read [] n buf plain text short e =
      subst (λ qs. Read buf [] qs) (ok-injective e) (last_part-Read buf plain)
  trace_loop-Read (c ∷ path) n buf plain text short e = elim (Bool-cases (c == b'/')) [
    | inl slash ↦ rw (==→eq c b'/' slash) (
        slash-round n buf path plain (rw (ne→== (length buf) 254 (omega arith), slash) at e)
          (λ qs run. trace_loop-Read path (n + 1) [] tt text.1 (omega arith) run))
    | inr other ↦ shift-Read c buf path (
        trace_loop-Read path n (buf ++ c ∷ [])
          (All-append buf (c ∷ []) plain ((==→ne c b'/' other, text.0), tt)) text.1
          (omega (arith, length-append buf (c ∷ [])))
          (rw (ne→== (length buf) 254 (omega arith), other) at e))
  ]
