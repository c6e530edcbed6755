-- ===== src/Fat/Table.antt =====
-- fat32.c: reads and writes of the file allocation table, and the walks along its chains.
pub mod Words
pub mod Entries
pub mod Chains
pub mod Unlink
pub mod Search
pub mod Free
use boba_os.Base.{
  ℕ, zero, suc, ◌+◌, ◌-◌, ◌*◌, ◌/◌, ◌%◌, ◌^◌, Ram, Option, none, some, Bool, true, false,
  if◌then◌else◌, ltb, ◌==◌, List, [], ◌∷◌, Errno,
}
use boba_os.Stream.{Driver}
use boba_os.Fat.{
  Outcome, done, Disk, Act, after, ◌>>=◌, ◌>>◌, pure, fail, undefined_here, le32, bytes32,
  FatPrivate, BootRecord, fat_entry_free, fat_entry_used, is_end, kzalloc_or, seek_read, seek_write,
  data_cluster_to_absolute_address, cluster_to_fat_table_address, cluster_to_fat_copy_table_address,
}

-- `& FAT_ENTRY_AND`
abbrev pub masked : Ram → ℕ → ℕ
masked b i = le32 b i % 2 ^ 28

-- The index of the first free one of `k` entries from `i` on.
unfoldable pub first_free : (entries : ℕ → ℕ) → (k i : ℕ) → Option ℕ
first_free entries zero i = none
first_free entries (suc k) i = elim (entries i == fat_entry_free) [
  | true ↦ some i
  | false ↦ first_free entries k (i + 1)
]

module _ (d : Driver) (alloc : ℕ → Bool) (p : FatPrivate) where
  unfoldable pub get_fat_entry : (entry : ℕ) → Act ℕ
  get_fat_entry entry = do b ← seek_read d alloc (entry * 4 + p.fat_address) 4; pure (masked b 0)

  -- Without a block the caller reads through NULL at once.
  unfoldable pub get_multiple_fat_entries : (first behind : ℕ) → Act (ℕ → ℕ)
  get_multiple_fat_entries first behind = do
    kzalloc_or alloc undefined_here
    b ← seek_read d alloc (first * 4 + p.fat_address) (4 * (behind - first))
    pure (λ i. masked b (4 * i))

  -- The loop of getFreeFatEntryCluster, with the rounds that it may take.
  unfoldable pub free_loop : (rounds first behind : ℕ) → Act ℕ
  free_loop zero first behind = undefined_here
  free_loop (suc rounds) first behind = elim (ltb behind p.boot_record.total_sectors_big) [
    | false ↦ pure 0
    | true ↦ get_multiple_fat_entries first behind >>= λ entries. elim (first_free entries 512 0) [
      | some i ↦ pure ((first + i) % 2 ^ 32)
      | none ↦ free_loop rounds ((first + 512) % 2 ^ 32) ((behind + 512) % 2 ^ 32)
    ]
  ]

  -- One round for each 512 sectors, and one more.
  unfoldable pub get_free_fat_entry_cluster : Act ℕ
  get_free_fat_entry_cluster = free_loop (p.boot_record.total_sectors_big / 512 + 1) 0 512

  unfoldable pub write_fat_entry : (cluster value : ℕ) → Act (Unit {0})
  write_fat_entry cluster value = do
    seek_write d alloc (cluster_to_fat_table_address p cluster) (bytes32 value) 4
    seek_write d alloc (cluster_to_fat_copy_table_address p cluster) (bytes32 value) 4

  -- The loop of unlinkFatChain. It frees an entry after it has read where the entry leads.
  unfoldable pub unlink_loop : (rounds entry : ℕ) → Act (Unit {0})
  unlink_loop zero entry = elim (is_end entry) [ true ↦ pure tt | false ↦ undefined_here ]
  unlink_loop (suc rounds) entry = elim (is_end entry) [
    | true ↦ pure tt
    | false ↦ get_fat_entry entry >>= λ next.
        (write_fat_entry entry fat_entry_free >> unlink_loop rounds next)
  ]

  unfoldable pub unlink_fat_chain : (rounds cluster : ℕ) → Act (Unit {0})
  unlink_fat_chain rounds cluster = do
    entry ← get_fat_entry cluster
    unlink_loop rounds entry
    write_fat_entry cluster fat_entry_used

  -- The cluster behind `count` more of a chain.
  unfoldable pub skip_clusters : (count cluster : ℕ) → Act ℕ
  skip_clusters zero cluster = pure cluster
  skip_clusters (suc count) cluster = get_fat_entry cluster >>= λ next. skip_clusters count next

  -- The new cluster of a directory, zeroed.
  unfoldable pub make_dir_bigger : (end_cluster : ℕ) → Act ℕ
  make_dir_bigger end_cluster = get_free_fat_entry_cluster >>= λ cluster. elim (cluster == 0) [
    | true ↦ fail Errno.ediskspace
    | false ↦ do
      write_fat_entry end_cluster cluster
      write_fat_entry cluster fat_entry_used
      seek_write d alloc (data_cluster_to_absolute_address p cluster) (λ i. 0) p.cluster_size
      pure cluster
  ]
