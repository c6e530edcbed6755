-- ===== src/Vfsl/Access.antt =====
-- fclose, fseek, fread and fwrite on the table of open files.
use mathlib.Core.Path.{subst}
use boba_os.Base.{
  ℕ, ◌+◌, ◌*◌, ◌^◌, ◌≤◌, ◌<◌, ◌≡◌, refl, sym, ap, ◌∙◌, inl, inr, Ram, Option, none, some, Bool,
  true, false, add64, mul64, ltb, leb, Result, ok, Errno, arith, Bool-cases, Option-cases,
  Result-cases, eq→==, err-ne-ok, ok-injective, check-ok,
}
use boba_os.Vfsl.{
  Vfs, File, FileSystem, check_if_file_is_open, opened, fseek, fread, read_open, fwrite, write_open,
  fclose, advanced, extended,
}
use boba_os.Vfsl.Handles.{Sound, without, without-Sound, close_file-without, set_at-Sound}

pub none-ne-some : {A : Type 0} {a : A} → ¬ (none ≡ some a)
none-ne-some h = cc

pub some-injective : {A : Type 0} {a b : A} → some a ≡ some b → a ≡ b
some-injective h = cc

pub fclose-without :
    (v : Vfs)
    → Sound v
    → (file : ℕ) → check_if_file_is_open v file ≡ some true
    → fclose v file ≡ some (ok (without v (v.files file).path))
unfolding fclose
fclose-without v w file e = rw (fclose, e) (close_file-without v w file e)

pub fclose-Sound : (v v' : Vfs) (file : ℕ) → Sound v → fclose v file ≡ some (ok v') → Sound v'
unfolding fclose
fclose-Sound v v' file w e = elim (Option-cases (check_if_file_is_open v file)) [
  | inl behind ↦ absurd (none-ne-some (rw (fclose, behind) at e))
  | inr (false, run) ↦ absurd (err-ne-ok (some-injective (rw (fclose, run) at e)))
  | inr (true, run) ↦
      subst Sound (ok-injective (some-injective (sym (fclose-without v w file run) ∙ e)))
        (without-Sound v w (v.files file).path)
]

pub fseek-Sound : (v v' : Vfs) (file offset : ℕ) → Sound v → fseek v file offset ≡ ok v' → Sound v'
unfolding fseek
fseek-Sound v v' file offset w e = elim (Bool-cases (leb offset (v.files file).size)) [
  | inl inside ↦
      let f = v.files file in
      let moved : File = record f { position = offset } in
      subst Sound (ok-injective (rw (fseek, inside) at e)) (set_at-Sound v w file moved refl)
  | inr outside ↦ absurd (err-ne-ok (rw (fseek, outside) at e))
]

module _ {S : Type 0} (volumes : ℕ → Option (FileSystem S)) (alloc : ℕ → Bool) (got : Bool) where
  read_open-advanced :
      (v v' : Vfs) (s : S) (file n : ℕ) (out : Ram) (o : Option (FileSystem S))
      → read_open volumes alloc got v s file n o ≡ ok (out, v')
      → (n ≤ add64 (v.files file).size (v.files file).position)
        × (advanced volumes alloc got v file n ≡ v')
  unfolding read_open
  read_open-advanced v v' s file n out none e = absurd (err-ne-ok e)
  read_open-advanced v v' s file n out (some fs) e =
      let (fits, e1) =
        check-ok Errno.eof (ltb (add64 (v.files file).size (v.files file).position) n) _ e in
      elim (Result-cases (fs.read_file s (v.files file) n)) [
        | inl (x, failed) ↦ absurd (err-ne-ok (rw failed at e1))
        | inr (bytes, done) ↦ (ground arith, ap {B = Vfs} (λ q. q.1) (ok-injective (rw done at e1)))
      ]

  pub fread-advanced :
      (v v' : Vfs) (s : S) (file size count : ℕ) (out : Ram)
      → fread volumes alloc got v s file size count ≡ some (ok (out, v'))
      → (check_if_file_is_open v file ≡ some true)
        × ((v.files file).mode.read ≡ true)
        × (mul64 size count ≤ add64 (v.files file).size (v.files file).position)
        × (advanced volumes alloc got v file (mul64 size count) ≡ v')
  unfolding fread
  fread-advanced v v' s file size count out e = elim (Option-cases (check_if_file_is_open v file)) [
    | inl behind ↦ absurd (none-ne-some (rw (fread, behind) at e))
    | inr (false, run) ↦ absurd (err-ne-ok (some-injective (rw (fread, run) at e)))
    | inr (true, run) ↦ elim (Bool-cases (v.files file).mode.read) [
      | inr closed ↦ absurd (err-ne-ok (some-injective (rw (fread, run, closed) at e)))
      | inl readable ↦
          let (fits, same) =
            read_open-advanced v v' s file (mul64 size count) out (volumes (v.files file).label)
              (some-injective (rw (fread, run, readable) at e)) in
          (run, readable, fits, same)
    ]
  ]

  write_open-extended :
      (v v' : Vfs) (s s' : S) (file : ℕ) (bytes : Ram) (n : ℕ) (o : Option (FileSystem S))
      → write_open volumes alloc got v s file bytes n o ≡ (ok v', s')
      → extended volumes alloc got v file n ≡ v'
  unfolding write_open
  write_open-extended v v' s s' file bytes n none e =
      absurd (err-ne-ok (ap {B = Result Vfs} (λ q. q.0) e))
  write_open-extended v v' s s' file bytes n (some fs) e =
      let e1 = ap {B = Result Vfs} (λ q. q.0) e in
      elim (Result-cases (fs.write_file s (v.files file) bytes n).0) [
        | inl (x, failed) ↦ absurd (err-ne-ok (rw failed at e1))
        | inr (u, done) ↦ ok-injective (rw done at e1)
      ]

  pub fwrite-extended :
      (v v' : Vfs) (s s' : S) (file : ℕ) (bytes : Ram) (size count : ℕ)
      → fwrite volumes alloc got v s file bytes size count ≡ some (ok v', s')
      → (check_if_file_is_open v file ≡ some true)
        × ((v.files file).mode.write ≡ true)
        × (extended volumes alloc got v file (mul64 size count) ≡ v')
  unfolding fwrite
  fwrite-extended v v' s s' file bytes size count e =
      elim (Option-cases (check_if_file_is_open v file)) [
        | inl behind ↦ absurd (none-ne-some (rw (fwrite, behind) at e))
        | inr (false, run) ↦
            absurd
              (err-ne-ok (ap {B = Result Vfs} (λ q. q.0) (some-injective (rw (fwrite, run) at e))))
        | inr (true, run) ↦ elim (Bool-cases (v.files file).mode.write) [
          | inr closed ↦ absurd (
              err-ne-ok
                (ap {B = Result Vfs} (λ q. q.0) (some-injective (rw (fwrite, run, closed) at e))))
          | inl writable ↦ (
            run,
            writable,
            write_open-extended v v' s s' file bytes (mul64 size count)
                (volumes (v.files file).label) (some-injective (rw (fwrite, run, writable) at e)),
          )
        ]
      ]

  fread-read_open :
      (v : Vfs) (s : S) (file size count : ℕ)
      → check_if_file_is_open v file ≡ some true
      → (v.files file).mode.read ≡ true
      → fread volumes alloc got v s file size count
        ≡ some
            (read_open volumes alloc got v s file (mul64 size count) (volumes (v.files file).label))
  unfolding fread
  fread-read_open v s file size count opened readable = rw (fread, opened, readable) refl

  read_open-ok :
      (v : Vfs) (s : S) (file n : ℕ) (out : Ram) (fs : FileSystem S)
      → fs.read_file s (v.files file) n ≡ ok out
      → ltb (add64 (v.files file).size (v.files file).position) n ≡ false
      → read_open volumes alloc got v s file n (some fs)
        ≡ ok (out, advanced volumes alloc got v file n)
  unfolding read_open
  read_open-ok v s file n out fs served fits = rw (read_open, fits, served) refl

  -- fread compares a request with the size of the file plus its position, not less it: on an open
  -- file that may be read, a request that reaches behind the end of the file, by no more than
  -- that, and that the file system serves, succeeds and leaves the position behind the end.
  pub fread-past_end :
      (v : Vfs) (s : S) (file size count : ℕ) (out : Ram) (fs : FileSystem S)
      → check_if_file_is_open v file ≡ some true
      → (v.files file).mode.read ≡ true
      → volumes (v.files file).label ≡ some fs
      → fs.read_file s (v.files file) (size * count) ≡ ok out
      → size * count + (v.files file).size + (v.files file).position < 2 ^ 64
      → (v.files file).size < (v.files file).position + size * count
      → size * count ≤ (v.files file).size + (v.files file).position
      → (v' : Vfs) × (fread volumes alloc got v s file size count ≡ some (ok (out, v')))
        × ((v'.files file).size < (v'.files file).position)
  fread-past_end v s file size count out fs opened readable there served small past fits =
      let f = v.files file in
      let not_past : ltb (add64 f.size f.position) (size * count) ≡ false = ground arith in
      let n : mul64 size count ≡ size * count = omega arith in
      (
        advanced volumes alloc got v file (size * count),
        fread-read_open v s file size count opened readable
            ∙ (λ i. some (read_open volumes alloc got v s file (n i) (there i)))
            ∙ ap some (read_open-ok v s file (size * count) out fs served not_past),
        rw (eq→== file file refl) (omega arith),
      )

  -- A write that succeeds, and does not take the size over 2^64, keeps a position inside the file,
  -- with and without FILE_MODE_APPEND.
  pub fwrite-position :
      (v v' : Vfs) (s s' : S) (file : ℕ) (bytes : Ram) (size count : ℕ)
      → (v.files file).position ≤ (v.files file).size
      → (v.files file).size + mul64 size count < 2 ^ 64
      → fwrite volumes alloc got v s file bytes size count ≡ some (ok v', s')
      → (v'.files file).position ≤ (v'.files file).size
  fwrite-position v v' s s' file bytes size count inside small e =
      let (opened, writable, same) = fwrite-extended v v' s s' file bytes size count e in
      subst (λ x. (x.files file).position ≤ (x.files file).size) same
        (rw (eq→== file file refl) (ground arith))
