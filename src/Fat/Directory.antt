-- ===== src/Fat/Directory.antt =====
-- fat32.c: the entries of a directory, the search for one, and the room for new ones.
use boba_os.Base.{
  ℕ, zero, suc, ◌+◌, ◌*◌, ◌/◌, Ram, Option, none, some, Bool, true, false, ◌&&◌, if◌then◌else◌, ltb,
  ◌==◌, List, [], ◌∷◌, ◌++◌, length, Errno, ok, err,
}
use boba_os.Stream.{Driver, PartitionStream, partition_stream_seek, partition_stream_read}
use boba_os.PageHeap.{block_size}
use boba_os.Text.{Chars, strncmp}
use boba_os.Fat.{
  done, Act, ◌>>=◌, ◌>>◌, pure, fail, undefined_here, defined, attempt, FatPrivate, is_end,
  kzalloc_or, seek_read, seek_write, data_cluster_to_absolute_address,
}
use boba_os.Fat.Table.{get_fat_entry}
use boba_os.Fat.Names.{
  entry_size, entry_at, entry_name, entry_ext, attributes, attribute_lnf, is_same,
  get_check_sum_from_s_entry, long_file_name_entries_to_name, compare_short_with_name,
  same_full_name,
}

-- The entries of a directory: their bytes, and how many there are.
abbrev pub Entries : Type 0
Entries = Ram × ℕ

-- BOBAOS_MAX_PATH_SIZE
abbrev pub name_room : ℕ
name_room = 255

module _ (d : Driver) (alloc : ℕ → Bool) (p : FatPrivate) where
  -- The block has one page of the heap. Without a block the caller reads through NULL.
  unfoldable pub get_dir_entry_single_cluster : (cluster : ℕ) → Act Entries
  get_dir_entry_single_cluster cluster = do
    kzalloc_or alloc undefined_here
    entries ← seek_read d alloc (data_cluster_to_absolute_address p cluster) p.cluster_size
    elim (ltb block_size p.cluster_size) [
      | true ↦ undefined_here
      | false ↦ pure (entries, p.cluster_size / entry_size)
    ]

  -- The first loop of getDirEntries: `room` elements of clusterList are left.
  unfoldable pub cluster_list : (room cluster entry : ℕ) → Act (List ℕ)
  cluster_list zero cluster entry = undefined_here
  cluster_list (suc room) cluster entry = elim (is_end entry) [
    | true ↦ pure (cluster ∷ [])
    | false ↦ get_fat_entry d alloc p entry >>= λ next.
        (cluster_list room entry next >>= λ cs. pure (cluster ∷ cs))
  ]

  -- The errors of both calls are dropped: their test compares the pointer to the error code.
  unfoldable pub load_cluster : (address : ℕ) → Act Ram
  load_cluster address s =
      let stream : PartitionStream = elim (partition_stream_seek s.read_stream address) [
        | err e ↦ s.read_stream
        | ok moved ↦ moved
      ] in
      elim (partition_stream_read d s.medium stream p.cluster_size (alloc s.allocs)) [
        | err e ↦ (done (λ i. 0), record s { read_stream = stream; allocs = s.allocs + 1 })
        | ok (out, stream') ↦ (done out, record s { read_stream = stream'; allocs = s.allocs + 1 })
      ]

  -- The second loop of getDirEntries stores the second cluster 32 cluster sizes behind the first,
  -- which is behind the end of the block.
  unfoldable pub load_clusters : List ℕ → Act Entries
  load_clusters [] = fail Errno.efsystem
  load_clusters (cluster ∷ []) = do
    kzalloc_or alloc (fail Errno.enmem)
    entries ← load_cluster (data_cluster_to_absolute_address p cluster)
    pure (entries, p.cluster_size / entry_size)
  load_clusters (cluster ∷ next ∷ more) = undefined_here

  unfoldable pub get_dir_entries : (cluster : ℕ) → Act Entries
  get_dir_entries cluster = do
    entry ← get_fat_entry d alloc p cluster
    clusters ← cluster_list 255 cluster entry
    load_clusters clusters

  -- Whether an entry that is not part of a long name is the one that is searched. `chain` has the
  -- entries of the long name before it, the last one first.
  unfoldable pub is_searched :
      (garbage : Chars) (chain : List Ram) (entry : Ram) (name : Chars) (attribute : ℕ)
      → Option Bool
  is_searched garbage [] entry name attribute = compare_short_with_name entry name
  is_searched garbage (last ∷ chain) entry name attribute =
      let full_name = long_file_name_entries_to_name (last ∷ chain) ++ garbage in
      elim (is_same (strncmp full_name name name_room)) [
        | false ↦ some false
        | true ↦ elim (get_check_sum_from_s_entry garbage (entry_name entry) (entry_ext entry)) [
          | none ↦ none
          | some sum ↦ some ((attributes entry == attribute) && (sum == last 13))
        ]
      ]

  -- The loop of findDirEntry over the entries from number `i` on, of which `k` are left. The
  -- array of a long name's entries has 12 elements.
  unfoldable pub find_loop :
      (garbage : Chars) (entries : Ram) (name : Chars) (attribute : ℕ) (chain : List Ram) (k i : ℕ)
      → Option (Option Ram)
  find_loop garbage entries name attribute chain zero i = some none
  find_loop garbage entries name attribute chain (suc k) i =
      let entry = entry_at entries i in
      elim (attributes entry == 0) [
        | true ↦ some none
        | false ↦ elim (attributes entry == attribute_lnf) [
          | true ↦ elim (ltb (length chain) 12) [
            | false ↦ none
            | true ↦ find_loop garbage entries name attribute (entry ∷ chain) k (i + 1)
          ]
          | false ↦ elim (is_searched garbage chain entry name attribute) [
            | none ↦ none
            | some true ↦ some (some entry)
            | some false ↦ find_loop garbage entries name attribute [] k (i + 1)
          ]
        ]
      ]

  -- What getDirEntries fails with is replaced by -ENFOUND.
  unfoldable pub find_dir_entry :
      (garbage : Chars) (cluster : ℕ) (name : Chars) (attribute : ℕ) → Act Ram
  find_dir_entry garbage cluster name attribute = do
    kzalloc_or alloc (fail Errno.enmem)
    found ← attempt (get_dir_entries cluster)
    elim found [
      | err e ↦ fail Errno.enfound
      | ok (entries, count) ↦
          defined (find_loop garbage entries name attribute [] count 0) >>= λ answer. elim answer [
            | none ↦ fail Errno.enfound
            | some entry ↦ pure entry
          ]
    ]

  unfoldable pub write_entry_at_address : (entry : Ram) (address : ℕ) → Act (Unit {0})
  write_entry_at_address entry address = seek_write d alloc address entry entry_size

  -- The index of the first used entry with the name of `wanted`.
  unfoldable pub index_by_name : (entries wanted : Ram) (k i : ℕ) → Option ℕ
  index_by_name entries wanted zero i = none
  index_by_name entries wanted (suc k) i =
      let entry = entry_at entries i in
      if attributes entry == 0
      then index_by_name entries wanted k (i + 1)
      else if same_full_name entry wanted
      then some i
      else index_by_name entries wanted k (i + 1)

  -- The loop of updateDirectoryEntry. Where it goes on leads always to the cluster behind the first.
  unfoldable pub update_loop : (rounds first cluster : ℕ) (wanted new_entry : Ram) → Act (Unit {0})
  update_loop zero first cluster wanted new_entry = undefined_here
  update_loop (suc rounds) first cluster wanted new_entry =
      get_dir_entry_single_cluster cluster >>= λ entries.
      elim (index_by_name entries.0 wanted entries.1 0) [
        | some i ↦
            write_entry_at_address new_entry
              (data_cluster_to_absolute_address p cluster + i * entry_size)
        | none ↦ get_fat_entry d alloc p first >>= λ next. elim (is_end next) [
          | true ↦ fail Errno.enfound
          | false ↦ update_loop rounds first next wanted new_entry
        ]
      ]

  unfoldable pub update_directory_entry :
      (rounds cluster : ℕ) (wanted new_entry : Ram) → Act (Unit {0})
  update_directory_entry rounds cluster wanted new_entry =
      update_loop rounds cluster cluster wanted new_entry
