-- ===== src/Fat/Descent.antt =====
-- How far findDirectory descends.
use boba_os.Base.{ℕ, ◌≡◌, refl, ap, Bool, true, false, ◌==◌, some, List, [], ◌∷◌, ◌++◌, Ram, Errno}
use boba_os.Stream.{Driver}
use boba_os.Text.{Chars}
use boba_os.PathTracer.{parts, start_trace}
use boba_os.PathTracer.Spec.{parts_of}
use boba_os.Fat.{Disk, Act, after, ◌>>=◌, pure, fail, FatPrivate}
use boba_os.Fat.Names.{attributes, start_cluster, attribute_directory}
use boba_os.Fat.Directory.{find_dir_entry}
use boba_os.Fat.Lookup.{root_cluster, goes_on, directory_loop, find_in, find_directory}

module _ (d : Driver) (alloc : ℕ → Bool) (p : FatPrivate) (garbage : Chars) where
  -- The entry that is reached from cluster `cluster` through all the names, in their order: a directory.
  unfoldable pub descend : (cluster : ℕ) (name : Chars) (names : List Chars) → Act Ram
  descend cluster name [] =
      find_dir_entry d alloc p garbage cluster name attribute_directory >>= λ entry.
      elim (attributes entry == attribute_directory) [
        | true ↦ pure entry
        | false ↦ fail Errno.enfound
      ]
  descend cluster name (next ∷ names) =
      find_dir_entry d alloc p garbage cluster name attribute_directory >>= λ entry.
      descend (start_cluster entry) next names

  directory_loop-descend :
      (cluster : ℕ) (name : Chars) (names : List Chars) (last f : Chars)
      → directory_loop d alloc p garbage cluster (parts_of (name ∷ names ++ last ∷ []) (some f))
        ≡ descend cluster name names
  unfolding directory_loop descend goes_on
  directory_loop-descend cluster name [] last f = refl
  directory_loop-descend cluster name (next ∷ []) last f = λ i s.
      after (find_dir_entry d alloc p garbage cluster name attribute_directory s)
        (λ entry. directory_loop-descend (start_cluster entry) next [] last f i)
  directory_loop-descend cluster name (next ∷ next2 ∷ names) last f = λ i s.
      after (find_dir_entry d alloc p garbage cluster name attribute_directory s)
        (λ entry. directory_loop-descend (start_cluster entry) next (next2 ∷ names) last f i)

  -- For a file below at least two directories, findDirectory answers what is reached from the root
  -- through all of them but the last: it does not look the last directory up.
  pub find_directory-descend :
      (label : ℕ) (name : Chars) (names : List Chars) (last f : Chars) (s : Disk)
      → find_directory d alloc p garbage
          (record { label = label; root = parts (parts_of (name ∷ names ++ last ∷ []) (some f)) })
          s
        ≡ descend (root_cluster p) name names s
  unfolding find_directory find_in start_trace
  find_directory-descend label name names last f s =
      ap (λ m. m s) (directory_loop-descend (root_cluster p) name names last f)

  -- For a file in a directory of the root, findDirectory answers that directory.
  pub find_directory-one :
      (label : ℕ) (name f : Chars) (s : Disk)
      → find_directory d alloc p garbage
          (record { label = label; root = parts (parts_of (name ∷ []) (some f)) })
          s
        ≡ descend (root_cluster p) name [] s
  unfolding find_directory find_in start_trace directory_loop descend goes_on
  find_directory-one label name f s = refl
