-- ===== src/Fat.antt =====
-- kernel/vfsl/driver/fat32.c and fat32.h: a volume behind two partition streams, its layout, and the
-- entries of its allocation table.
pub mod Ready
pub mod Table
pub mod Names
pub mod Directory
pub mod Create
pub mod Room
pub mod Lookup
pub mod Files
pub mod Contents
pub mod Reading
pub mod ReadLoop
pub mod ReadFile
mod Skipping
pub mod Writing
pub mod RoundTrip
pub mod Descent
pub mod LongNames
mod Tests
pub mod Api
mod Opening
use boba_os.Base.{
  ℕ, zero, suc, ◌+◌, ◌-◌, ◌*◌, ◌/◌, ◌%◌, ◌^◌, ◌≡◌, Ram, Option, none, some, Bool, true, false, not,
  ◌||◌, if◌then◌else◌, ltb, leb, ◌==◌, List, [], ◌∷◌, Result, ok, err, Errno,
}
use boba_os.Stream.{
  Driver, PartitionStream, partition_stream_create, partition_stream_seek, partition_stream_read,
  partition_stream_write,
}
use boba_os.Text.{Chars}

-- What a function gives. `undefined` is a read or a write through NULL, a store behind the end of a
-- buffer, or a loop that has used up its rounds.
pub data Outcome (A : Type 0) : Type 0 where
  done : A → Outcome A
  failed : Errno → Outcome A
  undefined : Outcome A

-- The medium, the two streams of struct fatPrivate, and the number of calls of kzalloc.
pub record Disk : Type 0 where
  pub medium : Ram
  pub read_stream : PartitionStream
  pub write_stream : PartitionStream
  pub allocs : ℕ

abbrev pub Act : Type 0 → Type 0
Act A = Disk → Outcome A × Disk

abbrev pub after : {A B : Type 0} → Outcome A × Disk → (A → Act B) → Outcome B × Disk
after (done a, s) f = f a s
after (failed e, s) f = (failed e, s)
after (undefined, s) f = (undefined, s)

infixl 5 ◌>>=◌ ◌>>◌
abbrev pub ◌>>=◌ : {A B : Type 0} → Act A → (A → Act B) → Act B
m >>= f = λ s. after (m s) f

abbrev pub ◌>>◌ : {A B : Type 0} → Act A → Act B → Act B
m >> k = m >>= λ _. k

abbrev pub pure : {A : Type 0} → A → Act A
pure a = λ s. (done a, s)

abbrev pub fail : {A : Type 0} → Errno → Act A
fail e = λ s. (failed e, s)

abbrev pub undefined_here : {A : Type 0} → Act A
undefined_here = λ s. (undefined, s)

-- Where NULL or a missing value leads to undefined behaviour.
abbrev pub defined : {A : Type 0} → Option A → Act A
defined none = undefined_here
defined (some a) = pure a

-- An error as a value, for the code that goes on.
abbrev pub caught : {A : Type 0} → Outcome A × Disk → Outcome (Result A) × Disk
caught (done a, s) = (done (ok a), s)
caught (failed e, s) = (done (err e), s)
caught (undefined, s) = (undefined, s)

abbrev pub attempt : {A : Type 0} → Act A → Act (Result A)
attempt m = λ s. caught (m s)

-- The fields of struct masterBootRecord that the driver reads.
pub record BootRecord : Type 0 where
  pub bytes_per_sector : ℕ
  pub sectors_per_cluster : ℕ
  pub reserved_sectors : ℕ
  pub fat_copies : ℕ
  pub total_sectors_big : ℕ
  pub sectors_per_fat32 : ℕ
  pub root_dir_cluster : ℕ

-- Little-endian words of a buffer.
abbrev pub le16 : Ram → ℕ → ℕ
le16 b i = b i + 2 ^ 8 * b (i + 1)

abbrev pub le32 : Ram → ℕ → ℕ
le32 b i = b i + 2 ^ 8 * b (i + 1) + 2 ^ 16 * b (i + 2) + 2 ^ 24 * b (i + 3)

-- The bytes of a uint32_t.
abbrev pub bytes32 : ℕ → Ram
bytes32 v i = v / 2 ^ (8 * i) % 2 ^ 8

unfoldable pub boot_record_of : Ram → BootRecord
boot_record_of b = record {
  bytes_per_sector = le16 b 11;
  sectors_per_cluster = b 13;
  reserved_sectors = le16 b 14;
  fat_copies = b 16;
  total_sectors_big = le32 b 32;
  sectors_per_fat32 = le32 b 36;
  root_dir_cluster = le32 b 44;
}

-- struct fatPrivate without its streams.
pub record FatPrivate : Type 0 where
  pub boot_record : BootRecord
  pub cluster_size : ℕ
  pub fat_address : ℕ
  pub fat_copy_start_address : ℕ
  pub data_cluster_start_address : ℕ
  pub root_dir_start_address : ℕ

-- The addresses are uint32_t.
unfoldable pub private_of : BootRecord → FatPrivate
private_of r =
    let fat = r.reserved_sectors * r.bytes_per_sector in
    let table = r.sectors_per_fat32 * r.bytes_per_sector in
    let cluster = r.bytes_per_sector * r.sectors_per_cluster in
    let data_start = (fat + table * r.fat_copies) % 2 ^ 32 in
    record {
      boot_record = r;
      cluster_size = cluster;
      fat_address = fat % 2 ^ 32;
      fat_copy_start_address = (fat + table) % 2 ^ 32;
      data_cluster_start_address = data_start;
      root_dir_start_address = (data_start + (r.root_dir_cluster + 2 ^ 32 - 2) * cluster) % 2 ^ 32;
    }

-- FAT_ENTRY_FREE, FAT_ENTRY_USED
abbrev pub fat_entry_free : ℕ
fat_entry_free = 0

abbrev pub fat_entry_used : ℕ
fat_entry_used = 2 ^ 28 - 1

-- fatEntry == FAT_ENTRY_USED || fatEntry == FAT_ENTRY_FREE
abbrev pub is_end : ℕ → Bool
is_end c = (c == fat_entry_used) || (c == fat_entry_free)

-- The operands of the subtraction stand as in the source.
unfoldable pub absolute_address_to_cluster : FatPrivate → (absolute : ℕ) → ℕ
absolute_address_to_cluster p absolute =
    if ltb absolute p.data_cluster_start_address
    then 0
    else (2 + (p.data_cluster_start_address + 2 ^ 32 - absolute) % 2 ^ 32 / p.cluster_size) % 2 ^ 32

unfoldable pub data_cluster_to_absolute_address : FatPrivate → (cluster : ℕ) → ℕ
data_cluster_to_absolute_address p cluster =
    ((cluster + 2 ^ 32 - 2) * p.cluster_size + p.data_cluster_start_address) % 2 ^ 32

unfoldable pub cluster_to_fat_table_address : FatPrivate → (cluster : ℕ) → ℕ
cluster_to_fat_table_address p cluster = (p.fat_address + 4 * cluster) % 2 ^ 32

unfoldable pub cluster_to_fat_copy_table_address : FatPrivate → (cluster : ℕ) → ℕ
cluster_to_fat_copy_table_address p cluster = (p.fat_copy_start_address + 4 * cluster) % 2 ^ 32

-- A call of kzalloc: its block, or what the code does without one.
abbrev pub kzalloc_or : (alloc : ℕ → Bool) → Act (Unit {0}) → Act (Unit {0})
kzalloc_or alloc without s =
    let s' : Disk = record s { allocs = s.allocs + 1 } in
    if alloc s.allocs then (done tt, s') else without s'

abbrev pub wrote : Disk → PartitionStream → Result PartitionStream × Ram → Outcome (Unit {0}) × Disk
wrote s p (err e, m') =
    (failed e, record s { medium = m'; write_stream = p; allocs = s.allocs + 1 })
wrote s p (ok p', m') =
    (done tt, record s { medium = m'; write_stream = p'; allocs = s.allocs + 1 })

module _ (d : Driver) (alloc : ℕ → Bool) where
  unfoldable pub read_from : Disk → PartitionStream → (length : ℕ) → Outcome Ram × Disk
  read_from s p length = elim (partition_stream_read d s.medium p length (alloc s.allocs)) [
    | err e ↦ (failed e, record s { read_stream = p; allocs = s.allocs + 1 })
    | ok (out, p') ↦ (done out, record s { read_stream = p'; allocs = s.allocs + 1 })
  ]

  -- partitionStreamSeek and then partitionStreamRead on the readStream.
  unfoldable pub seek_read : (address length : ℕ) → Act Ram
  unfolding read_from
  seek_read address length s = elim (partition_stream_seek s.read_stream address) [
    | err e ↦ (failed e, s)
    | ok p ↦ read_from s p length
  ]

  unfoldable pub write_to :
      Disk → PartitionStream → (bytes : Ram) → (length : ℕ) → Outcome (Unit {0}) × Disk
  write_to s p bytes length =
      wrote s p (partition_stream_write d s.medium p bytes length (alloc s.allocs))

  -- partitionStreamSeek and then partitionStreamWrite on the writeStream.
  unfoldable pub seek_write : (address : ℕ) → (bytes : Ram) → (length : ℕ) → Act (Unit {0})
  unfolding write_to
  seek_write address bytes length s = elim (partition_stream_seek s.write_stream address) [
    | err e ↦ (failed e, s)
    | ok p ↦ write_to s p bytes length
  ]
