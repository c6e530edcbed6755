-- ===== src/Fat/Room.antt =====
-- fat32.c: room for new entries in a directory, and new files there.
use boba_os.Base.{
  ℕ, zero, suc, ◌+◌, ◌-◌, ◌*◌, ◌/◌, ◌%◌, ◌^◌, Ram, Option, none, some, Bool, true, false, ◌&&◌,
  if◌then◌else◌, ltb, leb, ◌==◌, List, [], ◌∷◌, length, replicate, take, drop, get_or, Errno,
  Result, ok, err,
}
use mathlib.Core.List.{reverse}
use boba_os.Stream.{Driver}
use boba_os.Text.{Chars, text, strlen}
use boba_os.Fat.{
  Act, ◌>>=◌, ◌>>◌, pure, fail, undefined_here, defined, attempt, FatPrivate, fat_entry_used,
  kzalloc_or, seek_write, data_cluster_to_absolute_address,
}
use boba_os.Fat.Table.{get_fat_entry, make_dir_bigger, get_free_fat_entry_cluster, write_fat_entry}
use boba_os.Fat.Names.{
  entry_size, entry_at, attributes, start_cluster, attribute_archive, copy_at,
  get_check_sum_from_s_entry, to_long_file_name, long_entry_bytes,
}
use boba_os.Fat.Directory.{Entries, name_room, get_dir_entry_single_cluster}
use boba_os.Fat.Create.{generate_short_file_name}

-- The bytes of a new entry: `name` and `ext` are arrays of 8 and 3.
unfoldable pub dir_entry_bytes : (name ext : Chars) (attributes cluster size : ℕ) → Ram
dir_entry_bytes name ext attributes cluster size k =
    if ltb k 8
    then get_or name k 0
    else if ltb k 11
    then get_or ext (k - 8) 0
    else if k == 11
    then attributes
    else if leb 20 k && ltb k 22
    then cluster / 2 ^ 16 / 2 ^ (8 * (k - 20)) % 2 ^ 8
    else if leb 26 k && ltb k 28
    then cluster / 2 ^ (8 * (k - 26)) % 2 ^ 8
    else if leb 28 k && ltb k 32
    then size / 2 ^ (8 * (k - 28)) % 2 ^ 8
    else 0

-- A uint8_t.
unfoldable pub long_entries_needed : (length : ℕ) → ℕ
long_entries_needed length = (length / 13 + (if length % 13 == 0 then 0 else 1)) % 256

-- An error code, returned as an int, as a uint32_t.
unfoldable pub code : Errno → ℕ
code Errno.enmem = 2 ^ 32 - 1
code Errno.eio = 2 ^ 32 - 2
code Errno.eiarg = 2 ^ 32 - 3
code Errno.enfound = 2 ^ 32 - 4
code Errno.eiuse = 2 ^ 32 - 5
code Errno.eof = 2 ^ 32 - 6
code Errno.efsystem = 2 ^ 32 - 7
code Errno.ewmode = 2 ^ 32 - 8
code Errno.ehardware = 2 ^ 32 - 9
code Errno.enopen = 2 ^ 32 - 10
code Errno.eformat = 2 ^ 32 - 11
code Errno.ediskspace = 2 ^ 32 - 12
code Errno.elong = 2 ^ 32 - 13
code Errno.enspace = 2 ^ 32 - 14
code Errno.enimplemented = 2 ^ 32 - 255

-- struct fatFile
pub record FatFile : Type 0 where
  pub start_cluster : ℕ
  pub file_size : ℕ

-- The entries of the cluster that is read, `none` for NULL, and their number.
abbrev pub Block : Type 0
Block = Option Ram × ℕ

-- Reading a cluster of entries that fails keeps the number there was.
abbrev pub block_of : (count : ℕ) → Result Entries → Block
block_of count (err e) = (none, count)
block_of count (ok (entries, count')) = (some entries, count')

module _ (d : Driver) (alloc : ℕ → Bool) (p : FatPrivate) where
  -- The cluster behind the last one of the directory: makeDirBigger's answer, errors included.
  unfoldable pub next_cluster : (old entry : ℕ) → Act ℕ
  next_cluster old entry = elim (entry == fat_entry_used) [
    | false ↦ pure entry
    | true ↦ attempt (make_dir_bigger d alloc p old) >>= λ bigger. elim bigger [
      | err e ↦ pure (code e)
      | ok cluster ↦ pure cluster
    ]
  ]

  -- The loop of getFreeDirEntriesAddresses. `found` has the addresses of the free entries in
  -- succession up to entry `i` of cluster `old`, the last one first; `entry` is where `old` leads.
  unfoldable pub room_loop :
      (rounds count old entry : ℕ) → Block → (i : ℕ) → (found : List ℕ) → Act (List ℕ)
  room_loop zero count old entry block i found = undefined_here
  room_loop (suc rounds) count old entry block i found = elim (i == block.1) [
    | true ↦ next_cluster old entry >>= λ cluster.
        (attempt (get_dir_entry_single_cluster d alloc p cluster) >>= λ read.
        (get_fat_entry d alloc p cluster >>= λ after_it.
        room_loop rounds count cluster after_it (block_of block.1 read) 0 found))
    | false ↦ defined block.0 >>= λ entries. elim (attributes (entry_at entries i) == 0) [
      | false ↦ room_loop rounds count old entry block (i + 1) []
      | true ↦
          let found' = (data_cluster_to_absolute_address p old + entry_size * i) ∷ found in
          elim (length found' == count) [
            | true ↦ pure found'
            | false ↦ room_loop rounds count old entry block (i + 1) found'
          ]
    ]
  ]

  -- The addresses, the last one first.
  unfoldable pub get_free_dir_entries_addresses :
      (rounds : ℕ) (start : Ram) (count : ℕ) → Act (List ℕ)
  get_free_dir_entries_addresses rounds start count = do
    kzalloc_or alloc (fail Errno.enmem)
    entry ← get_fat_entry d alloc p (start_cluster start)
    read ← attempt (get_dir_entry_single_cluster d alloc p (start_cluster start))
    room_loop rounds count (start_cluster start) entry (block_of 0 read) 0 []

  -- Where there is no free cluster, or no block, the answer is NULL without an error, and openFile
  -- reads through it.
  unfoldable pub create_file_entry_at_absolute_address :
      (address : ℕ) (file_name : Chars) → Act FatFile
  create_file_entry_at_absolute_address address file_name =
      get_free_fat_entry_cluster d alloc p >>= λ cluster. elim (cluster == 0) [
        | true ↦ undefined_here
        | false ↦ do
          name ← defined (copy_at (replicate 8 0) 0 file_name 8)
          ext ← defined (copy_at (replicate 3 0) 0 (drop 9 file_name) 3)
          write_fat_entry d alloc p cluster fat_entry_used
          seek_write d alloc address (dir_entry_bytes name ext attribute_archive cluster 0)
              entry_size
          kzalloc_or alloc undefined_here
          pure (record { start_cluster = cluster; file_size = 0 })
      ]

  -- The loop of createLongFileNameEntryAtAddress: the entries `k - 1` to 0, at these addresses.
  unfoldable pub long_loop :
      (needed : ℕ) (file_name : Chars) (check_sum k : ℕ) (addresses : List ℕ) → Act (Unit {0})
  long_loop needed file_name check_sum zero addresses = pure tt
  long_loop needed file_name check_sum (suc k) addresses =
      let order = if suc k == needed then suc k + 64 else suc k in
      kzalloc_or alloc (fail Errno.enmem)
      >> (seek_write d alloc (get_or addresses 0 0)
            (long_entry_bytes (to_long_file_name (drop (k * 13) file_name) order check_sum))
            entry_size
          >> long_loop needed file_name check_sum k (drop 1 addresses))

  unfoldable pub create_long_file_name_entry_at_address :
      (addresses : List ℕ) (file_name : Chars) (check_sum : ℕ) → Act (Unit {0})
  create_long_file_name_entry_at_address addresses file_name check_sum =
      let needed = long_entries_needed (strlen file_name) in
      long_loop needed (text file_name) check_sum needed addresses

  -- `garbage` is what the arrays on the stack hold before.
  unfoldable pub create_fat_file_in_dir :
      (rounds : ℕ) (garbage : Chars) (dir : Ram) (file_name : Chars) → Act FatFile
  create_fat_file_in_dir rounds garbage dir file_name = do
    let needed = (long_entries_needed (strlen file_name) + 1) % 256
    found ← get_free_dir_entries_addresses rounds dir needed
    short ← generate_short_file_name d alloc p dir file_name (replicate name_room 0)
    name ← defined (copy_at (take 8 garbage) 0 short 8)
    ext ← defined (copy_at (take 3 garbage) 0 (drop 9 short) 3)
    sum ← defined (get_check_sum_from_s_entry garbage name ext)
    create_long_file_name_entry_at_address (reverse found) file_name sum
    create_file_entry_at_absolute_address (get_or found 0 0) short
