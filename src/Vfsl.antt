-- ===== src/Vfsl.antt =====
-- kernel/vfsl/virtualFilesystemLayer.c: the table of open files and the operations on files, over
-- file systems given as records.
pub mod Modes
pub mod Handles
pub mod Access
pub mod Opening
pub mod Rounds
mod Tests
use boba_os.Base.{
  ℕ, zero, suc, ◌+◌, ◌-◌, ◌*◌, ◌%◌, ◌^◌, Ram, add64, mul64, Option, none, some, Bool, true, false,
  not, ◌&&◌, ◌||◌, if◌then◌else◌, ltb, leb, ◌==◌, List, [], ◌∷◌, Result, ok, err, Errno,
}
use boba_os.Memory.{Order, below, same, above}
use boba_os.Text.{Chars, strcmp, str_hash}
use boba_os.PathTracer.{PathTracer, create_path_tracer}

-- BOBAOS_MAX_OPEN_FILES
abbrev pub max_open_files : ℕ
max_open_files = 1024

-- The bits FILE_MODE_READ, FILE_MODE_WRITE and FILE_MODE_APPEND of a uint8_t.
pub record Mode : Type 0 where
  pub read : Bool
  pub write : Bool
  pub append : Bool

abbrev pub mode : (read write append : Bool) → Mode
mode r w a = record { read = r; write = w; append = a }

abbrev pub no_mode : Mode
no_mode = mode false false false

-- What a character adds to the bits: `none` is `return 0`.
pub mode_step : Mode → (c : ℕ) → Option Mode
mode_step m c =
    if c == b'r'
    then (if not m.write && not m.append then some (record m { read = true }) else none)
    else (if c == b'w'
        then (if not m.read then some (record m { write = true }) else none)
        else (if c == b'a'
            then (if not m.read then some (record m { append = true }) else none)
            else none))

pub mode_loop : Mode → Chars → Mode
mode_loop m [] = m
mode_loop m (c ∷ s) =
    let rest : Mode = elim (mode_step m c) [ none ↦ no_mode | some m' ↦ mode_loop m' s ] in
    if c == 0 then m else rest

unfoldable pub check_mode : Chars → Mode
unfolding mode_loop mode_step
check_mode s = mode_loop no_mode s

-- struct file
pub record File : Type 0 where
  pub label : ℕ
  pub path : Chars
  pub name : Chars
  pub mode : Mode
  pub position : ℕ
  pub size : ℕ

-- The files by their pointers, and for each index of openFiles the files of its chain: an entry
-- whose file is NULL is the empty chain. `next_file` is the pointer of the next file.
pub record Vfs : Type 0 where
  pub files : ℕ → File
  pub open_files : ℕ → List ℕ
  pub next_file : ℕ

abbrev pub set_at {ℓ} : {A : Type ℓ} → (ℕ → A) → ℕ → A → ℕ → A
set_at f i v = λ k. if k == i then v else f k

-- strHash(path) % BOBAOS_MAX_OPEN_FILES
abbrev pub bucket : Chars → ℕ
bucket path = str_hash path % max_open_files

-- strcmp(a, b) == 0
unfoldable pub same_text : Chars → Chars → Bool
same_text a b = elim (strcmp a b) [ below ↦ false | same ↦ true | above ↦ false ]

-- The walk along a chain. Behind the last entry the source reads through NULL: `none`.
unfoldable pub chain_has : (ℕ → File) → (path : Chars) → List ℕ → Option Bool
chain_has files path [] = some false
chain_has files path (f ∷ []) = if same_text path (files f).path then some true else none
chain_has files path (f ∷ g ∷ fs) =
    let rest = chain_has files path (g ∷ fs) in
    if same_text path (files f).path then some true else rest

unfoldable pub check_if_file_is_open_string : Vfs → (path : Chars) → Option Bool
check_if_file_is_open_string v path = chain_has v.files path (v.open_files (bucket path))

unfoldable pub check_if_file_is_open : Vfs → (file : ℕ) → Option Bool
check_if_file_is_open v file = check_if_file_is_open_string v (v.files file).path

-- The new entry's next is NULL: what followed the entry before it is lost.
unfoldable pub add_behind : (ℕ → File) → (file : ℕ) → List ℕ → List ℕ
add_behind files file [] = file ∷ []
add_behind files file (f ∷ []) = f ∷ file ∷ []
add_behind files file (f ∷ g ∷ fs) =
    let rest = add_behind files file (g ∷ fs) in
    if same_text (files f).path (files file).path then f ∷ rest else f ∷ file ∷ []

abbrev pub is_empty : List ℕ → Bool
is_empty [] = true
is_empty (f ∷ fs) = false

-- `got` says whether kzalloc gives the entry of a longer chain.
unfoldable pub add_open_file : Vfs → (file : ℕ) → (got : Bool) → Result Vfs
add_open_file v file got =
    let id = bucket (v.files file).path in
    let chain = v.open_files id in
    if is_empty chain || got
    then ok (record v { open_files = set_at v.open_files id (add_behind v.files file chain) })
    else err Errno.enmem

-- An entry that has a next one takes over its file and its next. `none` is a read or a write
-- through NULL. `first` says whether the entry has no entry before it.
unfoldable pub take_out : (first : Bool) → List ℕ → Option (List ℕ)
take_out first [] = none
take_out true (f ∷ []) = some []
take_out false (f ∷ []) = none
take_out first (f ∷ g ∷ []) = none
take_out first (f ∷ g ∷ h ∷ fs) = some (g ∷ h ∷ fs)

unfoldable pub close_chain :
    (ℕ → File) → (path : Chars) → (first : Bool) → List ℕ → Option (Result (List ℕ))
close_chain files path first [] = none
close_chain files path first (f ∷ fs) =
    let taken : Option (Result (List ℕ)) = elim (take_out first (f ∷ fs)) [
      | none ↦ none
      | some left ↦ some (ok left)
    ] in
    let rest : Option (Result (List ℕ)) = elim (close_chain files path false fs) [
      | none ↦ none
      | some (err e) ↦ some (err e)
      | some (ok left) ↦ some (ok (f ∷ left))
    ] in
    if same_text (files f).path path
    then taken
    else (if is_empty fs then some (err Errno.enfound) else rest)

unfoldable pub close_file : Vfs → (file : ℕ) → Option (Result Vfs)
close_file v file =
    let path = (v.files file).path in
    elim (close_chain v.files path true (v.open_files (bucket path))) [
      | none ↦ none
      | some (err e) ↦ some (err e)
      | some (ok left) ↦
          some (ok (record v { open_files = set_at v.open_files (bucket path) left }))
    ]

-- struct fileSystem, with the state `S` of its volume.
pub record FileSystem (S : Type 0) : Type 0 where
  pub open_file : S → PathTracer → (create : Bool) → Result File × S
  pub read_file : S → File → (size : ℕ) → Result Ram
  pub write_file : S → File → Ram → (size : ℕ) → Result (Unit {0}) × S

unfoldable pub fseek : Vfs → (file offset : ℕ) → Result Vfs
fseek v file offset =
    if leb offset (v.files file).size
    then ok (record v { files = set_at v.files file (record (v.files file) { position = offset }) })
    else err Errno.enmem

-- A volume has its label and its file system. `alloc` and `got` say which calls of kzalloc succeed.
module _ {S : Type 0} (volumes : ℕ → Option (FileSystem S)) (alloc : ℕ → Bool) (got : Bool) where
  abbrev pub volume_exists : ℕ → Bool
  volume_exists label = elim (volumes label) [ none ↦ false | some fs ↦ true ]

  -- fopen once the file system has opened the file.
  pub opened : Vfs → S → Mode → Result File → Result ℕ × Vfs × S
  opened v s m (err e) = (err e, v, s)
  opened v s m (ok file) =
      let v' = record v {
        files = set_at v.files v.next_file (record file { mode = m });
        next_file = v.next_file + 1;
      } in
      elim (add_open_file v' v.next_file got) [
        | err e ↦ (err e, v, s)
        | ok v'' ↦ (ok v.next_file, v'', s)
      ]

  pub open_traced : Vfs → S → Mode → Result PathTracer → Option (Result ℕ × Vfs × S)
  unfolding opened
  open_traced v s m (err e) = some (err e, v, s)
  open_traced v s m (ok tracer) = elim (volumes tracer.label) [
    | none ↦ none
    | some fs ↦
        let (r, s') = fs.open_file s tracer (m.write && not m.append) in some (opened v s' m r)
  ]

  abbrev pub has_mode : Mode → Bool
  has_mode m = m.read || m.write || m.append

  unfoldable pub fopen : Vfs → S → (path mode : Chars) → Option (Result ℕ × Vfs × S)
  unfolding open_traced
  fopen v s path mode =
      let m = check_mode mode in
      let open_now = open_traced v s m (create_path_tracer volume_exists alloc path) in
      elim (check_if_file_is_open_string v path) [
        | none ↦ none
        | some true ↦ some (err Errno.eiuse, v, s)
        | some false ↦ if has_mode m then open_now else some (err Errno.ewmode, v, s)
      ]

  -- The file after a read, and after a write.
  abbrev pub advanced : Vfs → (file n : ℕ) → Vfs
  advanced v file n =
      let f = v.files file in
      record v { files = set_at v.files file (record f { position = add64 f.position n }) }

  abbrev pub extended : Vfs → (file n : ℕ) → Vfs
  extended v file n =
      let f = v.files file in
      record v {
        files = set_at v.files file (record f {
          position = add64 f.position n;
          size = if f.mode.append then add64 f.size n else add64 f.position n;
        });
      }

  pub read_open : Vfs → S → (file n : ℕ) → Option (FileSystem S) → Result (Ram × Vfs)
  read_open v s file n none = err Errno.eiarg
  read_open v s file n (some fs) =
      let f = v.files file in
      if ltb (add64 f.size f.position) n
      then err Errno.eof
      else elim (fs.read_file s f n) [ err e ↦ err e | ok out ↦ ok (out, advanced v file n) ]

  -- The bytes that were read, and the files.
  unfoldable pub fread : Vfs → S → (file size count : ℕ) → Option (Result (Ram × Vfs))
  unfolding read_open
  fread v s file size count = elim (check_if_file_is_open v file) [
    | none ↦ none
    | some false ↦ some (err Errno.enfound)
    | some true ↦
        if not (v.files file).mode.read
        then some (err Errno.ewmode)
        else some (read_open v s file (mul64 size count) (volumes (v.files file).label))
  ]

  pub write_open : Vfs → S → (file : ℕ) → Ram → (n : ℕ) → Option (FileSystem S) → Result Vfs × S
  write_open v s file bytes n none = (err Errno.eiarg, s)
  write_open v s file bytes n (some fs) =
      let (status, s') = fs.write_file s (v.files file) bytes n in
      (elim status [ err e ↦ err e | ok u ↦ ok (extended v file n) ], s')

  unfoldable pub fwrite : Vfs → S → (file : ℕ) → Ram → (size count : ℕ) → Option (Result Vfs × S)
  unfolding write_open
  fwrite v s file bytes size count = elim (check_if_file_is_open v file) [
    | none ↦ none
    | some false ↦ some (err Errno.enfound, s)
    | some true ↦
        if not (v.files file).mode.write
        then some (err Errno.ewmode, s)
        else some (write_open v s file bytes (mul64 size count) (volumes (v.files file).label))
  ]

unfoldable pub fclose : Vfs → (file : ℕ) → Option (Result Vfs)
fclose v file = elim (check_if_file_is_open v file) [
  | none ↦ none
  | some false ↦ some (err Errno.enfound)
  | some true ↦ close_file v file
]
