-- ===== src/Vfsl/Handles.antt =====
-- The table of open files: the invariant that the operations keep.
use boba_os.Base.{
  ℕ, ◌%◌, ◌<◌, ◌≡◌, refl, sym, ap, ◌∙◌, ◌⊎◌, inl, inr, some, Bool, true, false, ◌==◌, [], ◌∷◌, ok,
  arith, Bool-cases, ==→eq,
}
use boba_os.Text.{Chars, text, str_hash}
use boba_os.Text.Compare.{strcmp-same_iff}
use boba_os.Text.Copy.{str_hash-text}
use boba_os.Vfsl.{
  Vfs, File, set_at, bucket, same_text, chain_has, check_if_file_is_open_string,
  check_if_file_is_open, take_out, close_chain, close_file,
}

-- Each chain has one file at most, in the bucket of its path.
pub record Sound (v : Vfs) : Type 0 where
  pub chains :
      (id : ℕ)
      → (v.open_files id ≡ [])
        ⊎ ((f : ℕ) × (v.open_files id ≡ f ∷ [])
            × (bucket (v.files f).path ≡ id)
            × (f < v.next_file))

pub same_text-text : (a b : Chars) → same_text a b ≡ true → text a ≡ text b
unfolding same_text
same_text-text a b e = (strcmp-same_iff a b).0 (ground arith)

pub text-same_text : (a b : Chars) → text a ≡ text b → same_text a b ≡ true
unfolding same_text
text-same_text a b e = rw (same_text, (strcmp-same_iff a b).1 e) refl

pub bucket-text : (a b : Chars) → text a ≡ text b → bucket a ≡ bucket b
bucket-text a b e = ap (λ h. h % 1024) (str_hash-text a b e)

one_file :
    (files : ℕ → File) (path : Chars) (f : ℕ) (b : Bool)
    → chain_has files path (f ∷ []) ≡ some b
    → (b ≡ true) × (text path ≡ text (files f).path)
unfolding chain_has
one_file files path f b e = elim (Bool-cases (same_text path (files f).path)) [
  | inl hit ↦ (ground (arith, hit), same_text-text path (files f).path hit)
  | inr miss ↦ absurd (ground (arith, miss, e))
]

no_file :
    (files : ℕ → File) (path : Chars) (b : Bool) → chain_has files path [] ≡ some b → b ≡ false
unfolding chain_has
no_file files path b e = ground arith

module _ (v : Vfs) (w : Sound v) (path : Chars) where
  pub closed-chain :
      check_if_file_is_open_string v path ≡ some false → v.open_files (bucket path) ≡ []
  unfolding check_if_file_is_open_string
  closed-chain e = elim (w.chains (bucket path)) [
    | inl empty ↦ empty
    | inr (f, one, here, old) ↦
        let (b, p) = one_file v.files path f false (rw one at e) in absurd (ground (arith, b))
  ]

  pub open-chain :
      check_if_file_is_open_string v path ≡ some true
      → (f : ℕ) × (v.open_files (bucket path) ≡ f ∷ []) × (text path ≡ text (v.files f).path)
  unfolding check_if_file_is_open_string
  open-chain e = elim (w.chains (bucket path)) [
    | inl empty ↦ absurd (ground (arith, no_file v.files path true (rw empty at e)))
    | inr (f, one, here, old) ↦ (f, one, (one_file v.files path f true (rw one at e)).1)
  ]

-- Taking a file out of a table.
abbrev pub without : Vfs → Chars → Vfs
without v path = record v { open_files = set_at v.open_files (bucket path) [] }

pub without-Sound : (v : Vfs) → Sound v → (path : Chars) → Sound (without v path)
without-Sound v w path = record {
  chains = λ id. elim (Bool-cases (id == bucket path)) [
    | inl here ↦ inl (rw here refl)
    | inr other ↦ rw other (w.chains id)
  ];
}

close_one :
    (files : ℕ → File) (path : Chars) (f : ℕ)
    → same_text (files f).path path ≡ true
    → close_chain files path true (f ∷ []) ≡ some (ok [])
unfolding close_chain take_out
close_one files path f e = rw e refl

pub close_file-without :
    (v : Vfs)
    → Sound v
    → (file : ℕ) → check_if_file_is_open v file ≡ some true
    → close_file v file ≡ some (ok (without v (v.files file).path))
unfolding check_if_file_is_open close_file str_hash
close_file-without v w file e =
    let path = (v.files file).path in
    let (f, one, same_path) = open-chain v w path e in
    rw
      (
        close_file,
        one,
        close_one v.files path f (text-same_text (v.files f).path path (sym same_path)),
      )
      refl

-- A file enters an empty chain.
abbrev pub with_file : Vfs → (path : Chars) → Vfs
with_file v path = record v { open_files = set_at v.open_files (bucket path) (v.next_file ∷ []) }

path_kept :
    (v : Vfs) (file : ℕ) (f : File)
    → f.path ≡ (v.files file).path
    → (g : ℕ) → (set_at v.files file f g).path ≡ (v.files g).path
path_kept v file f same_path g = elim (Bool-cases (g == file)) [
  | inl hit ↦ rw hit (same_path ∙ ap (λ k. (v.files k).path) (sym (==→eq g file hit)))
  | inr miss ↦ rw miss refl
]

-- A file whose path stays may change otherwise.
pub set_at-Sound :
    (v : Vfs)
    → Sound v
    → (file : ℕ) (f : File) → f.path ≡ (v.files file).path
    → Sound (record v { files = set_at v.files file f })
set_at-Sound v w file f same_path = record {
  chains = λ id. elim (w.chains id) [
    | inl empty ↦ inl empty
    | inr (g, one, here, old) ↦ inr (g, one, ap bucket (path_kept v file f same_path g) ∙ here, old)
  ];
}
