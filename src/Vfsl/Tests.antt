-- ===== src/Vfsl/Tests.antt =====
-- Files on the volume C, whose file system opens every path as an empty file.
use mathlib.Core.Path.{subst}
use boba_os.Base.{
  ℕ, ◌≤◌, ◌<◌, ◌≡◌, refl, Bool-cases, inl, inr, sym, ap, Option, none, some, Bool, true, false,
  if◌then◌else◌, ◌==◌, [], ◌∷◌, Result, ok, err, Errno, arith, ok-injective,
}
use boba_os.Text.{Chars, text, strcmp, strlen, strncpy}
use boba_os.PathTracer.{PathTracer, create_path_tracer, fill_path_string, get_path_string}
use boba_os.Vfsl.{
  Vfs, File, FileSystem, mode, no_mode, check_mode, check_if_file_is_open,
  check_if_file_is_open_string, chain_has, same_text, fopen, fread, fwrite, fclose, write_open,
  extended, opened, open_traced, add_open_file, add_behind,
}
use boba_os.Vfsl.Modes.{meaning, check_mode-meaning}
use boba_os.Vfsl.Access.{none-ne-some, some-injective, fread-past_end, fwrite-position}
use boba_os.Vfsl.Opening.{Named}
use boba_os.Vfsl.Rounds.{Reachable, start, next, opens, fclose-Reachable, fopen-fopen, fclose-fopen}

abbrev c_a : Chars
c_a = b'C' ∷ b':' ∷ b'/' ∷ b'a' ∷ []

abbrev letters_r : Chars
letters_r = b'r' ∷ []

check_mode-meaning_example :
    check_mode (b'w' ∷ b'a' ∷ 0 ∷ []) ≡ meaning (text (b'w' ∷ b'a' ∷ 0 ∷ []))
check_mode-meaning_example = check_mode-meaning (b'w' ∷ b'a' ∷ 0 ∷ [])

file_of : PathTracer → Option (Option Chars) → Result File
file_of tracer none = err Errno.enfound
file_of tracer (some none) = err Errno.enmem
file_of tracer (some (some p)) =
    ok (record {
      label = tracer.label;
      path = p;
      name = [];
      mode = no_mode;
      position = 0;
      size = 100;
    })

abbrev zeros : FileSystem (Unit {0})
zeros = record {
  open_file = λ s tracer create. (file_of tracer (get_path_string true tracer), s);
  read_file = λ s f n. ok (λ i. 0);
  write_file = λ s f bytes n. (ok tt, s);
}

file_of-path :
    (tracer : PathTracer) (o : Option (Option Chars)) (f : File)
    → file_of tracer o ≡ ok f
    → (p : Chars) × (o ≡ some (some p)) × (text f.path ≡ text p)
unfolding file_of
file_of-path tracer none f e = absurd cc
file_of-path tracer (some none) f e = absurd cc
file_of-path tracer (some (some p)) f e = (p, refl, ap (λ g. text g.path) (sym (ok-injective e)))

abbrev volumes : ℕ → Option (FileSystem (Unit {0}))
volumes label = if label == b'C' then some zeros else none

zeros-Named : Named zeros
zeros-Named = record {
  named = λ s s' tracer create f e.
      file_of-path tracer (get_path_string true tracer) f (ap {B = Result File} (λ q. q.0) e);
}

volumes-Named : (label : ℕ) (fs : FileSystem (Unit {0})) → volumes label ≡ some fs → Named fs
volumes-Named label fs e = elim (Bool-cases (label == b'C')) [
  | inl on_c ↦ subst Named (some-injective (rw on_c at e)) zeros-Named
  | inr other ↦ absurd (none-ne-some (rw other at e))
]

abbrev empty : Vfs
empty = record {
  files = λ f. record { label = 0; path = []; name = []; mode = no_mode; position = 0; size = 0 };
  open_files = λ id. [];
  next_file = 0;
}

abbrev always : ℕ → Bool
always n = true

empty-Reachable : Reachable volumes volumes-Named always true empty
empty-Reachable = start empty (λ id. refl)

abbrev vfs_of : Option (Result ℕ × Vfs × Unit {0}) → Vfs
vfs_of none = empty
vfs_of (some (r, v, s)) = v

abbrev with_a : Vfs
with_a = vfs_of (fopen volumes always true empty tt c_a letters_r)

open_a : fopen volumes always true empty tt c_a letters_r ≡ some (ok 0, with_a, tt)
unfolding fopen open_traced opened add_open_file add_behind create_path_tracer get_path_string
    fill_path_string check_if_file_is_open_string chain_has check_mode file_of strlen text strncpy
open_a = refl

with_a-Reachable : Reachable volumes volumes-Named always true with_a
with_a-Reachable =
    next empty with_a empty-Reachable (opens empty tt c_a letters_r 0 with_a tt open_a)

fopen-fopen_example :
    (check_if_file_is_open with_a 0 ≡ some true)
    × (fopen volumes always true with_a tt c_a letters_r ≡ some (err Errno.eiuse, with_a, tt))
fopen-fopen_example =
    fopen-fopen volumes volumes-Named always true empty tt c_a letters_r tt letters_r
      empty-Reachable open_a

a_open : check_if_file_is_open with_a 0 ≡ some true
a_open =
    let twice =
      fopen-fopen volumes volumes-Named always true empty tt c_a letters_r tt letters_r
        empty-Reachable open_a in
    twice.0

fclose-fopen_example :
    (v : Vfs) × (fclose with_a 0 ≡ some (ok v))
    × ((id : ℕ) → v.open_files id ≡ empty.open_files id)
    × (check_if_file_is_open v 0 ≡ some false)
fclose-fopen_example =
    fclose-fopen volumes volumes-Named always true empty tt c_a letters_r empty-Reachable open_a

fclose-Reachable_example :
    (v : Vfs) × (fclose with_a 0 ≡ some (ok v))
    × Reachable volumes volumes-Named always true v
    × (check_if_file_is_open v 0 ≡ some false)
fclose-Reachable_example =
    fclose-Reachable volumes volumes-Named always true with_a 0 with_a-Reachable a_open

-- One file of 100 bytes at position 60, that may be read and written.
abbrev at_60 : Vfs
at_60 = record {
  files = λ f. record {
    label = b'C';
    path = c_a;
    name = [];
    mode = mode true true false;
    position = 60;
    size = 100;
  };
  open_files = λ id. 0 ∷ [];
  next_file = 1;
}

fread-past_end_example :
    (v : Vfs) × (fread volumes always true at_60 tt 0 12 10 ≡ some (ok ((λ i. 0), v)))
    × ((v.files 0).size < (v.files 0).position)
unfolding check_if_file_is_open check_if_file_is_open_string chain_has same_text strcmp
fread-past_end_example =
    fread-past_end volumes always true at_60 tt 0 12 10 (λ i. 0) zeros refl refl refl refl
      (omega arith) (omega arith) (omega arith)

abbrev after_write : Vfs
after_write = extended volumes always true at_60 0 70

fwrite-position_example : (after_write.files 0).position ≤ (after_write.files 0).size
unfolding fwrite write_open check_if_file_is_open check_if_file_is_open_string chain_has same_text
    strcmp
fwrite-position_example =
    fwrite-position volumes always true at_60 after_write tt tt 0 (λ i. 0) 7 10 (omega arith)
      (omega arith) refl
