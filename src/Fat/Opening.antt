-- ===== src/Fat/Opening.antt =====
-- openFile: the path of the file that it answers.
mod Tests
use boba_os.Base.{
  All, ℕ, zero, suc, ◌<◌, ◌≡◌, ◌≢◌, refl, sym, ap, ◌∙◌, Option, none, some, Bool, true, false, ltb,
  [], ◌∷◌, length, take, replicate, length-replicate, ok, Errno, arith, inl, inr, Bool-cases,
  ltb→lt,
}
use boba_os.Stream.{Driver}
use boba_os.Text.{Chars, text, strcpym}
use boba_os.Text.Copy.{strcpym-text}
use boba_os.PathTracer.{
  PathTracer, create_path_tracer, fill_path_string, get_path_string, start_trace, dangling,
  max_path_size,
}
use boba_os.PathTracer.Print.{get_path_string-create}
use boba_os.PathTracer.Plain.{NonZero, text-stops, text-NonZero}
use boba_os.Vfsl.{File, no_mode}
use boba_os.Vfsl.Access.{none-ne-some, some-injective}
use boba_os.Fat.{
  Outcome, done, failed, undefined, Disk, Act, after, ◌>>=◌, pure, fail, kzalloc_or, defined,
  attempt, FatPrivate,
}
use boba_os.Fat.Room.{FatFile}
use boba_os.Fat.Lookup.{find_file, tracer_file_name}
use boba_os.Fat.Api.{kzalloc_got, file_of, open_or_create, open_file}

-- An action that is done, and what is done next.
record Steps {A B : Type 0} (m : Outcome A × Disk) (k : A → Act B) (b : B) (s' : Disk)
    : Type 0 where
  value : A
  between : Disk
  first : m ≡ (done value, between)
  next : k value between ≡ (done b, s')

after-Steps :
    {A B : Type 0} (m : Outcome A × Disk) (k : A → Act B) {b : B} {s' : Disk}
    → after m k ≡ (done b, s')
    → Steps m k b s'
after-Steps (done a, s) k e = record { value = a; between = s; first = refl; next = e }
after-Steps (failed x, s) k e = absurd (cc e)
after-Steps (undefined, s) k e = absurd (cc e)

defined-done :
    {A : Type 0} (o : Option A) (s : Disk) {a : A} {s' : Disk}
    → defined o s ≡ (done a, s')
    → o ≡ some a
defined-done none s e = absurd (cc e)
defined-done (some a) s e = cc e

take-short : (n : ℕ) (xs : Chars) → length (take n xs) < n → take n xs ≡ xs
take-short zero xs h = absurd (omega arith)
take-short (suc n) [] h = refl
take-short (suc n) (x ∷ xs) h = ap (λ t. x ∷ t) (take-short n xs (omega arith))

take-text-NonZero :
    (n : ℕ) (xs : Chars) → length (take n (text xs)) < n → All NonZero (take n (text xs))
take-text-NonZero n xs h = rw (take-short n (text xs) h) (text-NonZero xs)

-- What strcpym copies into an array of its own size is the whole text.
strcpym-same :
    (n : ℕ) (src : Chars) {out : Chars}
    → strcpym (replicate n 0) src n ≡ some out
    → text out ≡ text src
strcpym-same n src {out} e =
    let copied = sym (strcpym-text (replicate n 0) src n) ∙ e in
    elim (Bool-cases (ltb (length (take n (text src))) (length (replicate {A = ℕ} n 0)))) [
      | inr long ↦ absurd (none-ne-some (rw long at copied))
      | inl fits ↦
          let short : length (take n (text src)) < n =
            omega (arith, ltb→lt _ _ fits, length-replicate {A = ℕ} n 0) in
          ap text (sym (some-injective (rw fits at copied)))
          ∙ text-stops (take n (text src)) _ (take-text-NonZero n src short)
          ∙ take-short n (text src) short
    ]

-- A string is answered only in a buffer.
string-got :
    (got : Bool) (tracer : PathTracer) {q : Chars}
    → get_path_string got tracer ≡ some (some q)
    → get_path_string true tracer ≡ some (some q)
unfolding get_path_string
string-got false tracer e = absurd (none-ne-some (some-injective e))
string-got true tracer e = e

module _ (d : Driver) (alloc : ℕ → Bool) (p : FatPrivate) (garbage : Chars) (rounds : ℕ) where
  abbrev Carries : PathTracer → File → Type 0
  Carries tracer f =
      (q : Chars) × (get_path_string true tracer ≡ some (some q)) × (text f.path ≡ text q)

  abbrev answer : PathTracer → FatFile → (path name : Chars) → File
  answer tracer fat_file path name = record {
    label = tracer.label;
    path = path;
    name = name;
    mode = no_mode;
    position = 0;
    size = fat_file.file_size;
  }

  -- What openFile does with the last name, with the copied path, with the printed one, and with
  -- the block of the file.
  abbrev with_last : PathTracer → FatFile → (path last : Chars) → Act File
  with_last tracer fat_file path last =
      defined (strcpym (replicate max_path_size 0) last max_path_size) >>= λ name.
      pure (answer tracer fat_file path name)

  abbrev with_path : PathTracer → FatFile → Chars → Act File
  with_path tracer fat_file path =
      tracer_file_name d alloc p garbage tracer >>= with_last tracer fat_file path

  abbrev with_printed : PathTracer → FatFile → Chars → Act File
  with_printed tracer fat_file printed =
      defined (strcpym (replicate max_path_size 0) printed max_path_size)
      >>= with_path tracer fat_file

  abbrev with_answer : PathTracer → FatFile → Option Chars → Act File
  with_answer tracer fat_file answer = defined answer >>= with_printed tracer fat_file

  abbrev with_got : PathTracer → FatFile → (got : Bool) → Act File
  with_got tracer fat_file got =
      defined (get_path_string got tracer) >>= with_answer tracer fat_file

  abbrev with_block : PathTracer → FatFile → Act File
  with_block tracer fat_file = kzalloc_got d alloc p garbage rounds >>= with_got tracer fat_file

  with_path-path :
      (tracer : PathTracer) (fat_file : FatFile) (path : Chars) (s : Disk) {f : File} {s' : Disk}
      → with_path tracer fat_file path s ≡ (done f, s')
      → path ≡ f.path
  with_path-path tracer fat_file path s {f} e =
      let last =
        after-Steps (tracer_file_name d alloc p garbage tracer s) (with_last tracer fat_file path)
          e in
      let copy = strcpym (replicate max_path_size 0) last.value max_path_size in
      let named =
        after-Steps (defined copy last.between) (λ name. pure (answer tracer fat_file path name))
          last.next in
      let file_is : answer tracer fat_file path named.value ≡ f = cc named.next in
      ap (λ (x : File). x.path) file_is

  with_block-Carries :
      (tracer : PathTracer) (fat_file : FatFile) (s : Disk) {f : File} {s' : Disk}
      → with_block tracer fat_file s ≡ (done f, s')
      → Carries tracer f
  with_block-Carries tracer fat_file s e =
      let got = after-Steps (kzalloc_got d alloc p garbage rounds s) (with_got tracer fat_file) e in
      let printed_or =
        after-Steps (defined (get_path_string got.value tracer) got.between)
          (with_answer tracer fat_file) got.next in
      let printed =
        after-Steps (defined printed_or.value printed_or.between) (with_printed tracer fat_file)
          printed_or.next in
      let copy = strcpym (replicate max_path_size 0) printed.value max_path_size in
      let copied =
        after-Steps (defined copy printed.between) (with_path tracer fat_file) printed.next in
      (
        printed.value,
        string-got got.value tracer (
            defined-done (get_path_string got.value tracer) got.between printed_or.first
            ∙ ap some (defined-done printed_or.value printed_or.between printed.first)),
        ap text (sym (with_path-path tracer fat_file copied.value copied.between copied.next))
            ∙ strcpym-same max_path_size printed.value
                (defined-done copy printed.between copied.first),
      )

  file_of-Carries :
      (tracer : PathTracer) (fat_file : FatFile) (s : Disk) {f : File} {s' : Disk}
      → file_of d alloc p garbage rounds tracer fat_file s ≡ (done f, s')
      → Carries tracer f
  unfolding file_of
  file_of-Carries tracer fat_file s e =
      let gave =
        after-Steps (kzalloc_or alloc (fail Errno.enmem) s) (λ _. with_block tracer fat_file) e in
      with_block-Carries tracer fat_file gave.between gave.next

  open_file-Carries :
      (tracer : PathTracer) (create : Bool) (s : Disk) {f : File} {s' : Disk}
      → open_file d alloc p garbage rounds tracer create s ≡ (done f, s')
      → Carries tracer f
  unfolding open_file
  open_file-Carries tracer create s e =
      let found =
        after-Steps (attempt (find_file d alloc p garbage tracer) s)
          (λ r.
            open_or_create d alloc p garbage rounds tracer create r
            >>= file_of d alloc p garbage rounds tracer)
          e in
      let made =
        after-Steps
          (open_or_create d alloc p garbage rounds tracer create found.value found.between)
          (file_of d alloc p garbage rounds tracer) found.next in
      file_of-Carries tracer made.value made.between made.next

-- A file system opens no file for a tracer with no part.
has_part :
    (tracer : PathTracer) {q : Chars}
    → get_path_string true tracer ≡ some (some q)
    → tracer.root ≢ dangling
unfolding get_path_string fill_path_string start_trace
has_part tracer e h = none-ne-some (rw (get_path_string, fill_path_string, h) at e)

module _ (d : Driver) (alloc : ℕ → Bool) (p : FatPrivate) (garbage : Chars) (rounds : ℕ) where
  -- openFile of the FAT32 driver, with the tracer that createPathTracer makes of a path, answers
  -- only files, found or created, that carry that path.
  pub open_file-path :
      (volume_exists got : ℕ → Bool) (path : Chars) (create : Bool) (s : Disk) {tracer : PathTracer}
      {f : File} {s' : Disk}
      → create_path_tracer volume_exists got path ≡ ok tracer
      → open_file d alloc p garbage rounds tracer create s ≡ (done f, s')
      → text f.path ≡ text path
  open_file-path volume_exists got path create s {tracer} {f} traced opened =
      let (q, printed, same) = open_file-Carries d alloc p garbage rounds tracer create s opened in
      let (out, printed', same') =
        get_path_string-create volume_exists got path traced (has_part tracer printed) in
      same ∙ ap text (some-injective (some-injective (sym printed ∙ printed' true))) ∙ same'
