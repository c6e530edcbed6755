-- ===== src/PathTracer.antt =====
-- kernel/vfsl/pathTracer.c: paths of the form C:/directory/file taken apart and put together.
pub mod Spec
pub mod Parse
pub mod Plain
pub mod Print
pub mod Accept
mod Tests
use mathlib.Core.Option
use boba_os.Base.{
  ℕ, zero, suc, ◌+◌, ◌-◌, ◌%◌, Option, none, some, Bool, ◌&&◌, ◌||◌, not, true, false,
  if◌then◌else◌, ltb, leb, ◌==◌, List, [], ◌∷◌, ◌++◌, length, replicate, take, drop, get_or, Result,
  ok, err, Errno,
}
use boba_os.Text.{Chars, text, strlen, strncpy}

-- BOBAOS_MAX_PATH_SIZE
abbrev pub max_path_size : ℕ
max_path_size = 255

pub data PartType : Type 0 where
  directory file : PartType

pub record Part : Type 0 where
  pub path_part : Chars
  pub type : PartType

abbrev pub part : Chars → PartType → Part
part name t = record { path_part = name; type = t }

-- `dangling` is a root that was freed and is still pointed to.
pub data Root : Type 0 where
  parts : List Part → Root
  dangling : Root

pub record PathTracer : Type 0 where
  pub label : ℕ
  pub root : Root

-- `char` is signed, and a byte from 128 on is below 'C'.
unfoldable pub check_volume_label : ℕ → Bool
check_volume_label label = leb b'C' label && leb label b'Z'

-- How a Result goes on when one more part stands in front.
abbrev pub with_part : Part → Result (List Part) → Result (List Part)
with_part p (ok ps) = ok (p ∷ ps)
with_part p (err e) = err e

-- The part that is being read when the path ends. An empty one is unlinked.
abbrev pub last_part : Chars → List Part
last_part [] = []
last_part (c ∷ buf) = part (c ∷ buf) file ∷ []

-- The loop of createPathTracer, and what follows it: the parts from the current one on. `buf` is
-- pathPart up to pathPartCounter, and `n` numbers the next call of kzalloc, which succeeds where
-- `alloc n` says so.
pub trace_loop : (alloc : ℕ → Bool) (n : ℕ) → (buf path : Chars) → Result (List Part)
trace_loop alloc n buf [] = ok (last_part buf)
trace_loop alloc n buf (c ∷ path) =
    let next = with_part (part buf directory) (trace_loop alloc (n + 1) [] path) in
    let more = trace_loop alloc n (buf ++ c ∷ []) path in
    if length buf == 254 || c == b'/'
    then (if length buf == 0
        then err Errno.eformat
        else (if alloc n then next else err Errno.enmem))
    else more

-- A path with no part at all leaves its root freed.
abbrev pub root_of : List Part → Root
root_of [] = dangling
root_of (p ∷ ps) = parts (p ∷ ps)

abbrev pub tracer_of : ℕ → Result (List Part) → Result PathTracer
tracer_of label (ok ps) = ok (record { label = label; root = root_of ps })
tracer_of label (err e) = err e

-- `volume_exists` says whether partitionGetByVolumeLabel finds the label.
unfoldable pub create_path_tracer :
    (volume_exists alloc : ℕ → Bool) → (path : Chars) → Result PathTracer
unfolding trace_loop check_volume_label
create_path_tracer volume_exists alloc path =
    let label = get_or path 0 0 in
    if not (check_volume_label label)
    then err Errno.eformat
    else (if leb max_path_size (strlen path)
        then err Errno.elong
        else (if not (get_or path 1 0 == b':' && get_or path 2 0 == b'/')
            then err Errno.eformat
            else (if not (volume_exists label)
                then err Errno.enfound
                else (if not (alloc 0 && alloc 1)
                    then err Errno.enmem
                    else tracer_of label (trace_loop alloc 2 [] (drop 3 (text path)))))))

-- pathTracerStartTrace. `none` is a root that must not be read.
unfoldable pub start_trace : PathTracer → Option (List Part)
start_trace tracer = elim tracer.root [ parts ps ↦ some ps | dangling ↦ none ]

-- One byte of the buffer behind a part: `+= '/'` for a directory.
abbrev pub separator : PartType → ℕ → ℕ
separator directory b = (b + b'/') % 256
separator file b = b

-- A file may end where the buffer does, if it is the last part.
abbrev pub end_of_room : PartType → List Part → Chars → Option Chars
end_of_room file [] copied = some copied
end_of_room file (p ∷ ps) copied = none
end_of_room directory ps copied = none

-- The rest of the buffer, `room`, once the parts are stored there. `none` is a store behind its end.
pub print_loop : (room : Chars) → List Part → Option Chars
print_loop room [] = some room
print_loop room (p ∷ ps) = elim (strncpy room p.path_part (strlen p.path_part)) [
  | none ↦ none
  | some copied ↦ elim (drop (strlen p.path_part) copied) [
    | [] ↦ end_of_room p.type ps copied
    | b ∷ room' ↦
        Option.map (λ out. take (strlen p.path_part) copied ++ separator p.type b ∷ out)
          (print_loop room' ps)
  ]
]

-- pathTracerGetPathString in the buffer that kzalloc gives.
unfoldable pub fill_path_string : PathTracer → Option Chars
unfolding print_loop start_trace
fill_path_string tracer = elim (start_trace tracer) [
  | none ↦ none
  | some ps ↦
      Option.map (λ out. tracer.label ∷ b':' ∷ b'/' ∷ out)
        (print_loop (replicate (max_path_size - 3) 0) ps)
]

-- pathTracerGetPathString. The inner `none` is the answer NULL, where kzalloc gives no buffer.
unfoldable pub get_path_string : (got : Bool) → PathTracer → Option (Option Chars)
unfolding fill_path_string
get_path_string false tracer = some none
get_path_string true tracer = Option.map (λ out. some out) (fill_path_string tracer)

-- The first part that is a file.
unfoldable pub file_name_of : List Part → Option Chars
file_name_of [] = none
file_name_of (p ∷ ps) =
    let rest = file_name_of ps in elim p.type [ file ↦ some p.path_part | directory ↦ rest ]
