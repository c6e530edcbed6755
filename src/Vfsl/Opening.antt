-- ===== src/Vfsl/Opening.antt =====
-- fopen on the table of open files.
use mathlib.Core.Path.{subst₂}
use boba_os.Base.{
  ℕ, ◌+◌, ◌<◌, ◌≡◌, ◌≢◌, refl, sym, ap, ◌∙◌, inl, inr, Option, some, Bool, true, false, not, ◌&&◌,
  ◌==◌, [], ◌∷◌, Result, ok, err, Errno, arith, Bool-cases, Option-cases, Result-cases, ==→eq,
  eq→==, ne→==, err-ne-ok, ok-injective,
}
use boba_os.Text.{Chars, text, str_hash}
use boba_os.PathTracer.{
  PathTracer, create_path_tracer, fill_path_string, get_path_string, start_trace, dangling,
}
use boba_os.PathTracer.Print.{get_path_string-create}
use boba_os.Vfsl.{
  Vfs, File, FileSystem, Mode, set_at, bucket, check_mode, has_mode, check_if_file_is_open_string,
  add_behind, add_open_file, opened, open_traced, fopen, volume_exists,
}
use boba_os.Vfsl.Handles.{Sound, closed-chain, bucket-text}
use boba_os.Vfsl.Access.{none-ne-some, some-injective}

-- A file that a file system opens carries the path that the path tracer prints.
pub record Named {S : Type 0} (fs : FileSystem S) : Type 0 where
  pub named :
      (s s' : S) (tracer : PathTracer) (create : Bool) (f : File)
      → fs.open_file s tracer create ≡ (ok f, s')
      → (p : Chars) × (get_path_string true tracer ≡ some (some p)) × (text f.path ≡ text p)

module _ {S : Type 0} (volumes : ℕ → Option (FileSystem S))
    (named : (label : ℕ) (fs : FileSystem S) → volumes label ≡ some fs → Named fs)
    (alloc : ℕ → Bool) (got : Bool) where
  -- What an fopen that succeeds leaves.
  pub record Opened (v : Vfs) (path : Chars) (file : ℕ) (v' : Vfs) : Type 0 where
    pub file_is : file ≡ v.next_file
    pub path_is : text (v'.files file).path ≡ text path
    pub table : v'.open_files ≡ set_at v.open_files (bucket (v'.files file).path) (file ∷ [])
    pub empty : v.open_files (bucket (v'.files file).path) ≡ []
    pub next : v'.next_file ≡ v.next_file + 1
    pub others : (g : ℕ) → g < v.next_file → v'.files g ≡ v.files g

  has_string :
      (tracer : PathTracer) (p : Chars)
      → get_path_string true tracer ≡ some (some p)
      → tracer.root ≢ dangling
  unfolding get_path_string fill_path_string start_trace
  has_string tracer p e h = none-ne-some (rw (get_path_string, fill_path_string, h) at e)

  -- The table with a new file, and with its entry in an empty chain.
  abbrev with_file : Vfs → Mode → File → Vfs
  with_file v m f = record v {
    files = set_at v.files v.next_file (record f { mode = m });
    next_file = v.next_file + 1;
  }

  abbrev entered : Vfs → (file : ℕ) → Vfs
  entered v file = record v {
    open_files = set_at v.open_files (bucket (v.files file).path) (file ∷ []);
  }

  add_open_file-entered :
      (v : Vfs) (file : ℕ)
      → v.open_files (bucket (v.files file).path) ≡ []
      → add_open_file v file got ≡ ok (entered v file)
  unfolding add_open_file add_behind str_hash
  add_open_file-entered v file empty = rw (add_open_file, empty) refl

  new_path : (v : Vfs) (m : Mode) (f : File) → ((with_file v m f).files v.next_file).path ≡ f.path
  new_path v m f = rw (eq→== v.next_file v.next_file refl) refl

  opened-entered :
      (v : Vfs) (s : S) (m : Mode) (f : File)
      → v.open_files (bucket f.path) ≡ []
      → opened volumes alloc got v s m (ok f)
        ≡ (ok v.next_file, entered (with_file v m f) v.next_file, s)
  unfolding opened
  opened-entered v s m f empty =
      rw
        (
          opened,
          add_open_file-entered (with_file v m f) v.next_file
              (ap (λ p. v.open_files (bucket p)) (new_path v m f) ∙ empty),
        )
        refl

  entered-Opened :
      (v : Vfs) (m : Mode) (f : File) (path : Chars)
      → v.open_files (bucket f.path) ≡ []
      → text f.path ≡ text path
      → Opened v path v.next_file (entered (with_file v m f) v.next_file)
  entered-Opened v m f path empty same_path = record {
    empty = ap (λ p. v.open_files (bucket p)) (new_path v m f) ∙ empty;
    file_is = refl;
    path_is = ap text (new_path v m f) ∙ same_path;
    table = refl;
    next = refl;
    others = λ g old. rw (ne→== g v.next_file (omega arith)) refl;
  }

  opened-Opened :
      (v : Vfs) (s : S) (path : Chars) (m : Mode) (f : File) {file : ℕ} {v' : Vfs} {s' : S}
      → v.open_files (bucket path) ≡ []
      → text f.path ≡ text path
      → opened volumes alloc got v s m (ok f) ≡ (ok file, v', s')
      → Opened v path file v'
  opened-Opened v s path m f {file} {v'} empty same_path e =
      let here = ap v.open_files (bucket-text f.path path same_path) ∙ empty in
      let e1 : ◌≡◌ {A = Result ℕ × Vfs × S}
          (ok v.next_file, entered (with_file v m f) v.next_file, s) (ok file, v', _) =
        sym (opened-entered v s m f here) ∙ e in
      subst₂ (λ n x. Opened v path n x) (ok-injective (ap {B = Result ℕ} (λ q. q.0) e1))
        (ap {B = Vfs} (λ q. q.1) e1) (entered-Opened v m f path here same_path)

  opened-err :
      (v : Vfs) (s : S) (m : Mode) (x : Errno)
      → opened volumes alloc got v s m (err x) ≡ (err x, v, s)
  unfolding opened
  opened-err v s m x = refl

  open_traced-Opened :
      (v : Vfs) (s : S) (path : Chars) (m : Mode) (tracer : PathTracer) {file : ℕ} {v' : Vfs}
      {s' : S}
      → v.open_files (bucket path) ≡ []
      → create_path_tracer (volume_exists volumes alloc got) alloc path ≡ ok tracer
      → open_traced volumes alloc got v s m (ok tracer) ≡ some (ok file, v', s')
      → Opened v path file v'
  unfolding open_traced
  open_traced-Opened v s path m tracer {file} {v'} {s'} empty traced e =
      elim (Option-cases (volumes tracer.label)) [
        | inl no_volume ↦ absurd (none-ne-some (rw (open_traced, no_volume) at e))
        | inr (fs, there) ↦
            let create = m.write && not m.append in
            let e1 = some-injective (rw (open_traced, there) at e) in
            elim (Result-cases (fs.open_file s tracer create).0) [
              | inl (x, failed) ↦ absurd (
                  err-ne-ok
                    (ap {B = Result ℕ} (λ q. q.0) (sym (opened-err v _ m x) ∙ rw failed at e1)))
              | inr (f, done) ↦
                  let (p, printed, same) =
                    (named tracer.label fs there).named s _ tracer create f
                      (λ i. (done i, (fs.open_file s tracer create).1)) in
                  let (out, printed', same') =
                    get_path_string-create (volume_exists volumes alloc got) alloc path traced
                      (has_string tracer p printed) in
                  opened-Opened v _ path m f empty
                    (same
                      ∙ ap text (some-injective (some-injective (sym printed ∙ printed' true)))
                      ∙ same')
                    (rw done at e1)
            ]
      ]

  pub fopen-Opened :
      (v : Vfs) (s : S) (path mode : Chars) {file : ℕ} {v' : Vfs} {s' : S}
      → Sound v
      → fopen volumes alloc got v s path mode ≡ some (ok file, v', s')
      → Opened v path file v'
  unfolding fopen open_traced
  fopen-Opened v s path mode {file} {v'} {s'} w e =
      elim (Option-cases (check_if_file_is_open_string v path)) [
        | inl behind ↦ absurd (none-ne-some (rw (fopen, behind) at e))
        | inr (true, run) ↦
            absurd
              (err-ne-ok (ap {B = Result ℕ} (λ q. q.0) (some-injective (rw (fopen, run) at e))))
        | inr (false, run) ↦ elim (Bool-cases (has_mode volumes alloc got (check_mode mode))) [
          | inr unset ↦ absurd (
              err-ne-ok
                (ap {B = Result ℕ} (λ q. q.0) (some-injective (rw (fopen, run, unset) at e))))
          | inl set ↦
              elim (Result-cases
                (create_path_tracer (volume_exists volumes alloc got) alloc path)) [
                  | inl (x, failed) ↦ absurd (
                      err-ne-ok (
                        ap {B = Result ℕ} (λ q. q.0)
                          (some-injective
                            (rw (failed, open_traced) at (rw (fopen, run, set) at e)))))
                  | inr (tracer, traced) ↦
                      open_traced-Opened v s path (check_mode mode) tracer
                        (closed-chain v w path run) traced
                        (rw traced at (rw (fopen, run, set) at e))
                ]
        ]
      ]

  pub Opened-Sound :
      (v v' : Vfs) (path : Chars) (file : ℕ) → Sound v → Opened v path file v' → Sound v'
  Opened-Sound v v' path file w o = record {
    chains = λ id. elim (Bool-cases (id == bucket (v'.files file).path)) [
      | inl here ↦ inr (
        file,
        ap (λ t. t id) o.table ∙ rw here refl,
        sym (==→eq _ _ here),
        omega (arith, o.file_is, o.next),
      )
      | inr other ↦
          let before : v'.open_files id ≡ v.open_files id =
            ap (λ t. t id) o.table ∙ rw other refl in
          elim (w.chains id) [
            | inl empty ↦ inl (before ∙ empty)
            | inr (g, one, here, old) ↦ inr (
              g,
              before ∙ one,
              ap (λ f. bucket f.path) (o.others g old) ∙ here,
              omega (arith, o.next),
            )
          ]
    ];
  }
