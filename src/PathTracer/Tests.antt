-- ===== src/PathTracer/Tests.antt =====
-- Paths on the volume C, where every allocation succeeds.
use Prim.Native.Char.{code}
use Prim.Native.String.{String}
use boba_os.Base.{
  if◌then◌else◌, Bool, none, ℕ, ◌≡◌, refl, Bool, true, some, none, [], ◌∷◌, ◌==◌, ok, err, Errno,
  arith,
}
use boba_os.Text.{Chars, text, strlen}
use boba_os.PathTracer.{
  PathTracer, part, file, directory, parts, dangling, create_path_tracer, get_path_string,
  file_name_of, check_volume_label,
}
use boba_os.PathTracer.Print.{get_path_string-create, create_path_tracer-Accepted, Accepted}
use boba_os.PathTracer.Accept.{create_path_tracer-path_of}

abbrev codes : String → Chars
codes String.[] = []
codes (String.◌∷◌ c s) = code c ∷ codes s

abbrev on_c : ℕ → Bool
on_c label = label == b'C'

abbrev always : ℕ → Bool
always k = true

abbrev traced : PathTracer
traced = record {
  label = b'C';
  root = parts (part (codes "bin") directory ∷ part (codes "a.txt") file ∷ []);
}

create_bin : create_path_tracer on_c always (codes "C:/bin/a.txt") ≡ ok traced
unfolding create_path_tracer strlen text
create_bin = refl

empty_component : create_path_tracer on_c always (codes "C:/bin//a.txt") ≡ err Errno.eformat
unfolding create_path_tracer strlen text
empty_component = refl

file_name_bin :
    file_name_of (part (codes "bin") directory ∷ part (codes "a") file ∷ []) ≡ some (codes "a")
unfolding file_name_of
file_name_bin = refl

get_path_string-create_example :
    (out : Chars) × ((got : Bool)
      → get_path_string got traced ≡ some (if got then some out else none))
    × (text out ≡ text (codes "C:/bin/a.txt"))
get_path_string-create_example =
    get_path_string-create on_c always (codes "C:/bin/a.txt") create_bin (λ e. cc)

create_path_tracer-Accepted_example : Accepted on_c (codes "C:/bin/a.txt") traced
create_path_tracer-Accepted_example =
    create_path_tracer-Accepted on_c always (codes "C:/bin/a.txt") create_bin

-- A path that names only a volume: its tracer points to a root that was freed.
create_path_tracer-path_of_example :
    create_path_tracer on_c always (codes "C:/") ≡ ok (record { label = b'C'; root = dangling })
unfolding check_volume_label
create_path_tracer-path_of_example =
    create_path_tracer-path_of on_c always b'C' [] none refl refl (λ k. refl) tt tt (omega arith)
