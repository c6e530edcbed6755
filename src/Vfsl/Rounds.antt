-- ===== src/Vfsl/Rounds.antt =====
-- Opening, using and closing files: sequences of operations from the empty table on.
use mathlib.Core.Path.{subst}
use boba_os.Base.{
  ℕ, ◌≡◌, refl, sym, ap, ◌∙◌, inl, inr, Ram, Option, some, Bool, true, false, ◌==◌, [], ◌∷◌, ok,
  err, Errno, Bool-cases, ==→eq, eq→==,
}
use boba_os.Text.{Chars, text, str_hash}
use boba_os.Vfsl.{
  Vfs, File, FileSystem, set_at, bucket, check_if_file_is_open_string, check_if_file_is_open, fopen,
  fseek, fread, fwrite, fclose,
}
use boba_os.Vfsl.Handles.{Sound, without, set_at-Sound, bucket-text}
use boba_os.Vfsl.Access.{fclose-without, fclose-Sound, fseek-Sound, fread-advanced, fwrite-extended}
use boba_os.Vfsl.Opening.{Named, fopen-Opened, Opened-Sound}
use boba_os.Vfsl.Handles.{text-same_text}
use boba_os.Vfsl.{chain_has}

without-closed :
    (v : Vfs) (file : ℕ) → check_if_file_is_open (without v (v.files file).path) file ≡ some false
unfolding check_if_file_is_open check_if_file_is_open_string chain_has str_hash
without-closed v file =
    rw (eq→== (bucket (v.files file).path) (bucket (v.files file).path) refl) refl

open_now :
    (v : Vfs) (file : ℕ)
    → check_if_file_is_open_string v (v.files file).path ≡ some true
    → check_if_file_is_open v file ≡ some true
unfolding check_if_file_is_open
open_now v file e = e

one_open :
    (files : ℕ → File) (path : Chars) (file : ℕ)
    → text path ≡ text (files file).path
    → chain_has files path (file ∷ []) ≡ some true
unfolding chain_has
one_open files path file e = rw (text-same_text path (files file).path e) refl

opened-open :
    (v v' : Vfs) (file : ℕ)
    → v'.open_files ≡ set_at v.open_files (bucket (v'.files file).path) (file ∷ [])
    → (path : Chars) → text path ≡ text (v'.files file).path
    → check_if_file_is_open_string v' path ≡ some true
unfolding check_if_file_is_open_string
opened-open v v' file table path same_path =
    let chain : v'.open_files (bucket path) ≡ file ∷ [] =
      ap (λ t. t (bucket path)) table
      ∙ rw
          (eq→== (bucket path) (bucket (v'.files file).path)
            (bucket-text path (v'.files file).path same_path))
          refl in
    ap (chain_has v'.files path) chain ∙ one_open v'.files path file same_path

module _ {S : Type 0} (volumes : ℕ → Option (FileSystem S))
    (named : (label : ℕ) (fs : FileSystem S) → volumes label ≡ some fs → Named fs)
    (alloc : ℕ → Bool) (got : Bool) where
  -- An operation that succeeds.
  pub data Step : Vfs → Vfs → Type 0 where
    opens :
        (v : Vfs) (s : S) (path mode : Chars) (file : ℕ) (v' : Vfs) (s' : S)
        → fopen volumes alloc got v s path mode ≡ some (ok file, v', s')
        → Step v v'
    seeks : (v : Vfs) (file offset : ℕ) (v' : Vfs) → fseek v file offset ≡ ok v' → Step v v'
    reads :
        (v : Vfs) (s : S) (file size count : ℕ) (out : Ram) (v' : Vfs)
        → fread volumes alloc got v s file size count ≡ some (ok (out, v'))
        → Step v v'
    writes :
        (v : Vfs) (s : S) (file : ℕ) (bytes : Ram) (size count : ℕ) (v' : Vfs) (s' : S)
        → fwrite volumes alloc got v s file bytes size count ≡ some (ok v', s')
        → Step v v'
    closes : (v : Vfs) (file : ℕ) (v' : Vfs) → fclose v file ≡ some (ok v') → Step v v'

  -- vfslInit clears the table.
  abbrev pub Start : Vfs → Type 0
  Start v = (id : ℕ) → v.open_files id ≡ []

  pub data Reachable : Vfs → Type 0 where
    start : (v : Vfs) → Start v → Reachable v
    next : (v v' : Vfs) → Reachable v → Step v v' → Reachable v'

  Step-Sound : {v v' : Vfs} → Step v v' → Sound v → Sound v'
  Step-Sound (opens v s path mode file v' s' e) w =
      Opened-Sound volumes named alloc got v v' path file w
        (fopen-Opened volumes named alloc got v s path mode w e)
  Step-Sound (seeks v file offset v' e) w = fseek-Sound v v' file offset w e
  Step-Sound (reads v s file size count out v' e) w =
      subst Sound (fread-advanced volumes alloc got v v' s file size count out e).3
        (set_at-Sound v w file _ refl)
  Step-Sound (writes v s file bytes size count v' s' e) w =
      subst Sound (fwrite-extended volumes alloc got v v' s s' file bytes size count e).2
        (set_at-Sound v w file _ refl)
  Step-Sound (closes v file v' e) w = fclose-Sound v v' file w e

  Reachable-Sound : {v : Vfs} → Reachable v → Sound v
  Reachable-Sound (start v empty) = record { chains = λ id. inl (empty id) }
  Reachable-Sound (next v v' r step) = Step-Sound step (Reachable-Sound r)

  -- From the empty table on, over file systems that give a file the path of its tracer, in any
  -- order of successful operations, fclose of a file that counts as open succeeds, and the file
  -- does not count as open after it.
  pub fclose-Reachable :
      (v : Vfs) (file : ℕ)
      → Reachable v
      → check_if_file_is_open v file ≡ some true
      → (v' : Vfs) × (fclose v file ≡ some (ok v'))
        × Reachable v'
        × (check_if_file_is_open v' file ≡ some false)
  fclose-Reachable v file r e =
      let closed = fclose-without v (Reachable-Sound r) file e in
      let v' = without v (v.files file).path in
      (v', closed, next v v' r (closes v file v' closed), without-closed v file)

  -- In a table that such operations lead to, a file that fopen opened is open, and a second fopen
  -- of its path is refused with -EIUSE, whatever its mode, and changes nothing.
  pub fopen-fopen :
      (v : Vfs) (s : S) (path mode : Chars) {file : ℕ} {v' : Vfs} {s' : S} (s'' : S) (mode' : Chars)
      → Reachable v
      → fopen volumes alloc got v s path mode ≡ some (ok file, v', s')
      → (check_if_file_is_open v' file ≡ some true)
        × (fopen volumes alloc got v' s'' path mode' ≡ some (err Errno.eiuse, v', s''))
  unfolding fopen
  fopen-fopen v s path mode {file} {v'} s'' mode' r e =
      let o = fopen-Opened volumes named alloc got v s path mode (Reachable-Sound r) e in
      (
        open_now v' file (opened-open v v' file o.table (v'.files file).path refl),
        rw (fopen, opened-open v v' file o.table path (sym o.path_is)) refl,
      )

  -- In a table that such operations lead to, fclose after fopen gives every chain of the table
  -- back as it was, and the path is not open.
  pub fclose-fopen :
      (v : Vfs) (s : S) (path mode : Chars) {file : ℕ} {v' : Vfs} {s' : S}
      → Reachable v
      → fopen volumes alloc got v s path mode ≡ some (ok file, v', s')
      → (v'' : Vfs) × (fclose v' file ≡ some (ok v''))
        × ((id : ℕ) → v''.open_files id ≡ v.open_files id)
        × (check_if_file_is_open v'' file ≡ some false)
  fclose-fopen v s path mode {file} {v'} {s'} r e =
      let w = Reachable-Sound r in
      let o = fopen-Opened volumes named alloc got v s path mode w e in
      let w' = Opened-Sound volumes named alloc got v v' path file w o in
      let p = (v'.files file).path in
      (
        without v' p,
        fclose-without v' w' file (open_now v' file (opened-open v v' file o.table p refl)),
        λ id. elim (Bool-cases (id == bucket p)) [
          | inl here ↦ rw here (sym (ap v.open_files (==→eq id (bucket p) here) ∙ o.empty))
          | inr other ↦ rw other (ap (λ t. t id) o.table ∙ rw other refl)
        ],
        without-closed v' file,
      )
