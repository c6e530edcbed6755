-- ===== src/Fat/Lookup.antt =====
-- fat32.c: the directory and the entry that a path names.
use boba_os.Base.{ℕ, Ram, none, some, Bool, true, false, ◌==◌, List, [], ◌∷◌, Errno}
use boba_os.Stream.{Driver}
use boba_os.Text.{Chars}
use boba_os.PathTracer.{PathTracer, Part, directory, file, start_trace, file_name_of}
use boba_os.Fat.{
  Act, ◌>>=◌, ◌>>◌, pure, fail, defined, FatPrivate, kzalloc_or, absolute_address_to_cluster,
}
use boba_os.Fat.Names.{attributes, start_cluster, file_size, attribute_directory, attribute_archive}
use boba_os.Fat.Directory.{find_dir_entry}
use boba_os.Fat.Room.{FatFile, dir_entry_bytes}

-- The number of the root directory's cluster.
unfoldable pub root_cluster : FatPrivate → ℕ
root_cluster p = absolute_address_to_cluster p p.root_dir_start_address

-- Whether the loop of findDirectory goes on behind a directory: at a directory with another one
-- behind it.
unfoldable pub goes_on : List Part → Bool
goes_on [] = false
goes_on (q ∷ []) = false
goes_on (q ∷ r ∷ rest) = elim q.type [
  | file ↦ false
  | directory ↦ elim r.type [ file ↦ false | directory ↦ true ]
]

module _ (d : Driver) (alloc : ℕ → Bool) (p : FatPrivate) (garbage : Chars) where
  -- The loop, with the part that it has come to in front.
  unfoldable pub directory_loop : (cluster : ℕ) → List Part → Act Ram
  directory_loop cluster [] = fail Errno.enfound
  directory_loop cluster (part ∷ rest) =
      find_dir_entry d alloc p garbage cluster part.path_part attribute_directory >>= λ entry.
      elim (goes_on rest) [
        | true ↦ directory_loop (start_cluster entry) rest
        | false ↦ elim (attributes entry == attribute_directory) [
          | true ↦ pure entry
          | false ↦ fail Errno.enfound
        ]
      ]

  -- A path that starts with a file is in the root directory.
  unfoldable pub find_in : List Part → Act Ram
  find_in [] = fail Errno.eiarg
  find_in (part ∷ rest) = elim part.type [
    | directory ↦ directory_loop (root_cluster p) (part ∷ rest)
    | file ↦
        kzalloc_or alloc (fail Errno.enmem)
        >> pure (dir_entry_bytes [] [] attribute_directory (root_cluster p) 0)
  ]

  unfoldable pub find_directory : PathTracer → Act Ram
  find_directory tracer = defined (start_trace tracer) >>= λ parts. find_in parts

  -- pathTracerGetFileName, and what a path without a file leads to.
  unfoldable pub tracer_file_name : PathTracer → Act Chars
  tracer_file_name tracer = defined (start_trace tracer) >>= λ parts. elim (file_name_of parts) [
    | none ↦ fail Errno.eiarg
    | some name ↦ pure name
  ]

  unfoldable pub find_file : PathTracer → Act FatFile
  find_file tracer = do
    dir ← find_directory tracer
    name ← tracer_file_name tracer
    entry ← find_dir_entry d alloc p garbage (start_cluster dir) name attribute_archive
    kzalloc_or alloc (fail Errno.enmem)
    pure (record { start_cluster = start_cluster entry; file_size = file_size entry })
