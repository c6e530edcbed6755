-- ===== src/Disks.antt =====
-- kernel/disk/disk.c and kernel/disk/diskDriver.c: the lists of drivers, disks and partitions.
pub mod Labels
mod Tests
use boba_os.Base.{
  ℕ, zero, suc, ◌+◌, ◌-◌, ◌*◌, ◌%◌, ◌^◌, Option, none, some, Bool, true, false, ◌&&◌, ◌||◌,
  if◌then◌else◌, ltb, leb, ◌==◌, List, [], ◌∷◌, ◌++◌, length, get_elem?, set, Result, ok, err,
  Errno,
}

-- BOBAOS_MAX_DISK_DRIVER, BOBAOS_MAX_DISKS, BOBAOS_MAX_PARTITIONS_PER_DISK and LABEL_ASCII_OFFSET.
abbrev pub max_disk_driver : ℕ
max_disk_driver = 12

abbrev pub max_disks : ℕ
max_disks = 255

abbrev pub max_partitions_per_disk : ℕ
max_partitions_per_disk = 4

abbrev pub label_ascii_offset : ℕ
label_ascii_offset = 67

-- The types of the drivers in driverList.
unfoldable pub insert_driver : List ℕ → (type : ℕ) → Result (List ℕ)
insert_driver drivers type =
    if length drivers == max_disk_driver then err Errno.enmem else ok (drivers ++ type ∷ [])

-- The index of the first driver of a type.
unfoldable pub get_driver : List ℕ → (type : ℕ) → Option ℕ
get_driver [] type = none
get_driver (t ∷ ts) type =
    let rest : Option ℕ = elim (get_driver ts type) [ none ↦ none | some i ↦ some (suc i) ] in
    if t == type then some 0 else rest

-- struct mbrPartitionTable, as far as it is read.
pub record MbrEntry : Type 0 where
  pub bootable : ℕ
  pub partition_start : ℕ
  pub total_sectors : ℕ

-- struct diskPartition
pub record Partition : Type 0 where
  pub id : ℕ
  pub label : ℕ
  pub offset_bytes : ℕ
  pub size_bytes : ℕ
  pub disk : ℕ

-- The globals of disk.c. A disk is known by its pointer, and a pointer to a partition is its disk with
-- the index in the disk's array.
pub record Disks : Type 0 where
  pub disk_list : List ℕ
  pub partition_list : List (ℕ × ℕ)
  pub partition : (disk index : ℕ) → Partition
  pub disk_id : (disk : ℕ) → ℕ
  pub current_label : ℕ

unfoldable pub insert_disk : Disks → (disk : ℕ) → Result Disks
insert_disk s disk =
    if length s.disk_list == max_disks
    then err Errno.enmem
    else ok (record s { disk_list = s.disk_list ++ disk ∷ [] })

-- partition number `count` of a disk, from a table entry. The products are uint32_t.
abbrev pub found : Disks → (disk count : ℕ) → MbrEntry → Disks
found s disk count e = record s {
  partition = λ d i.
      if d == disk && i == count
      then record {
        id = count;
        label = s.current_label;
        offset_bytes = (e.partition_start * 512) % 2 ^ 32;
        size_bytes = (e.total_sectors * 512) % 2 ^ 32;
        disk = disk;
      }
      else s.partition d i;
  current_label = (s.current_label + 1) % 256;
  partition_list = s.partition_list ++ (disk, 0) ∷ [];
}

-- The loop of checkMbrPartition from round `i` on. `table k` is the entry `k` of 16 bytes behind the
-- start of the table: both the buffer and the index move on, so that round `i` reads entry 2 * i. The
-- entries from 4 on lie behind the table.
pub mbr_loop : (table : ℕ → MbrEntry) → (disk i count rounds : ℕ) → Disks → ℕ × Disks
mbr_loop table disk i count zero s = (count, s)
mbr_loop table disk i count (suc k) s =
    let more = mbr_loop table disk (i + 1) (count + 1) k (found s disk count (table (i + i))) in
    let rest = mbr_loop table disk (i + 1) count k s in
    if (table (i + i)).bootable == 0x80
    then (if leb (max_disks * max_partitions_per_disk) (length s.partition_list)
        then (count, s)
        else more)
    else rest

unfoldable pub check_mbr_partition : (table : ℕ → MbrEntry) → (disk : ℕ) → Disks → ℕ × Disks
unfolding mbr_loop
check_mbr_partition table disk s = mbr_loop table disk 0 0 4 s

-- `is_kernel d` says whether sector 0 of the disk has the signature of the boot disk.
unfoldable pub kernel_index : (is_kernel : ℕ → Bool) → List ℕ → Option ℕ
kernel_index is_kernel [] = none
kernel_index is_kernel (d ∷ ds) =
    let rest : Option ℕ = elim (kernel_index is_kernel ds) [
      | none ↦ none
      | some i ↦ some (suc i)
    ] in
    if is_kernel d then some 0 else rest

-- Disks `first` and `d`, which stand at the places 0 and `i`, change places.
abbrev pub exchanged : Disks → (first d i : ℕ) → Disks
exchanged s first d i = record s {
  disk_list = set (set s.disk_list 0 d) i first;
  disk_id = λ x. if x == first then i else (if x == d then 0 else s.disk_id x);
}

-- `none` stands for false.
unfoldable pub find_kernel_disk : (is_kernel : ℕ → Bool) → Disks → Option Disks
unfolding kernel_index
find_kernel_disk is_kernel s = elim (kernel_index is_kernel s.disk_list) [
  | none ↦ none
  | some zero ↦ some s
  | some (suc i) ↦ elim (get_elem? s.disk_list 0) [
    | none ↦ none
    | some first ↦ elim (get_elem? s.disk_list (suc i)) [
      | none ↦ none
      | some d ↦ some (exchanged s first d (suc i))
    ]
  ]
]

abbrev pub with_label : Disks → (ℕ × ℕ) → (label : ℕ) → Disks
with_label s (disk, index) label = record s {
  partition = λ d i.
      if d == disk && i == index
      then record (s.partition d i) { label = label }
      else s.partition d i;
}

-- The partitions `temp`, which stands first, and `p`, whose label has the place `place`, change places
-- and labels.
abbrev pub renamed : Disks → (temp p : ℕ × ℕ) → (label place : ℕ) → Disks
renamed s temp p label place =
    with_label
      (with_label (record s { partition_list = set (set s.partition_list 0 p) place temp }) temp
        label)
      p label_ascii_offset

-- The loop over the partitions of the first disk from number `i` on: `none` stands for false, also
-- where the list of partitions is empty, which a disk with a partition rules out. `signature i` says
-- whether the partition has the volume name of the kernel.
pub find_partition_loop : (signature : ℕ → Bool) → (disk i rounds : ℕ) → Disks → Option Disks
find_partition_loop signature disk i zero s = none
find_partition_loop signature disk i (suc k) s =
    let rest = find_partition_loop signature disk (i + 1) k s in
    let label = (s.partition disk i).label in
    let exchange : Option Disks = elim (get_elem? s.partition_list 0) [
      | none ↦ none
      | some temp ↦
          some (renamed s temp (disk, i) label ((label + 2 ^ 16 - label_ascii_offset) % 2 ^ 16))
    ] in
    if signature i then (if label == b'C' then some s else exchange) else rest

-- `count` is the number of partitions of the first disk, and `opened` says whether its stream is made.
unfoldable pub find_kernel_partition :
    (signature : ℕ → Bool) → (count : ℕ) → (opened : Bool) → Disks → Option Disks
unfolding find_partition_loop
find_kernel_partition signature count opened s = elim (get_elem? s.disk_list 0) [
  | none ↦ none
  | some disk ↦ if opened then find_partition_loop signature disk 0 count s else none
]

unfoldable pub disk_get : Disks → (id : ℕ) → Option ℕ
disk_get s id = if leb (length s.disk_list) id then none else get_elem? s.disk_list id

unfoldable pub partition_get : Disks → (disk_id partition_id : ℕ) → Option (ℕ × ℕ)
partition_get s disk_id partition_id =
    if leb (length s.disk_list) disk_id || leb max_partitions_per_disk partition_id
    then none
    else elim (get_elem? s.disk_list disk_id) [ none ↦ none | some d ↦ some (d, partition_id) ]

-- The list is read at LABEL_ASCII_OFFSET - label. The outer `none` is a read before the list; the
-- inner one is NULL. A label from 128 on is negative.
unfoldable pub partition_get_by_volume_label : Disks → (label : ℕ) → Option (Option (ℕ × ℕ))
partition_get_by_volume_label s label =
    if leb label_ascii_offset label && ltb label 128
    then (if leb (length s.partition_list) (label - label_ascii_offset)
        then some none
        else (if label == label_ascii_offset then some (get_elem? s.partition_list 0) else none))
    else (if ltb label 128
        then some (get_elem? s.partition_list (label_ascii_offset - label))
        else some (get_elem? s.partition_list (label_ascii_offset + 256 - label)))
