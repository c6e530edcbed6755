-- ===== src/PageHeap.antt =====
-- kernel/memory/kheap/kheap_page.c: the kernel heap in blocks of 4096 bytes. The table has one
-- byte of flags for each block, at address 0 of the same memory.
pub mod Spec
pub mod Find
pub mod Alloc
pub mod Blocks
pub mod Free
pub mod Pages
mod Tests
use boba_os.Base.{
  ℕ, zero, suc, ◌+◌, ◌-◌, ◌*◌, ◌/◌, ◌%◌, ◌^◌, Ram, poke, add64, sub64, mul64, bit_and, bit_or,
  Option, none, some, Bool, true, false, ◌&&◌, if◌then◌else◌, ltb, leb, ◌==◌, Result, ok, err,
  Errno, through_int,
}
use boba_os.Memory.{memset}

-- KHEAP_BLOCK_SIZE and the addresses of config.h.
abbrev pub block_size : ℕ
block_size = 4096

abbrev pub heap_address : ℕ
heap_address = 0x500000

abbrev pub table_address : ℕ
table_address = 0

abbrev pub heap_size : ℕ
heap_size = 1024 * 1024 * 100

abbrev pub flag_locked : ℕ
flag_locked = 0x1

abbrev pub flag_start : ℕ
flag_start = 0x40

abbrev pub flag_next : ℕ
flag_next = 0x80

-- The globals of kheap_page.c, and the memory.
pub record PageHeap : Type 0 where
  pub ram : Ram
  pub table_size : ℕ
  pub table_max_size : ℕ

-- `lower_memory` is what getMaxMemorySize() - getUpperMemorySize() gives.
unfoldable pub kheap_init_table : Ram → (lower_memory : ℕ) → Result PageHeap
kheap_init_table ram lower_memory =
    if ltb lower_memory (heap_size / block_size + table_address)
    then err Errno.enmem
    else ok (record {
      ram = memset ram table_address 0 (heap_size / block_size);
      table_size = heap_size / block_size;
      table_max_size = lower_memory;
    })

unfoldable pub check_alignment : ℕ → Bool
check_alignment page = page % block_size == 0

unfoldable pub size_up_to_page : ℕ → ℕ
unfolding check_alignment
size_up_to_page size =
    if check_alignment size then size else add64 size (block_size - size % block_size)

unfoldable pub get_page_count : ℕ → Result ℕ
get_page_count size = if size % block_size == 0 then ok (size / block_size) else err Errno.eio

-- The address of a table entry.
abbrev pub get_table_entry : ℕ → ℕ
get_table_entry offset = table_address + offset

abbrev pub has_flag : ℕ → ℕ → Bool
has_flag entry flag = if bit_and entry flag == 0 then false else true

-- `*tableEntry |= flag`.
abbrev pub or_flag : Ram → ℕ → ℕ → Ram
or_flag m a flag = poke m a (bit_or (m a) flag)

-- One round of the loop of markEntryTaken.
pub mark_entry : Ram → (start_index size i : ℕ) → Ram
mark_entry m start_index size i =
    let entry = get_table_entry (i + start_index) in
    let m1 = if i == 0 then or_flag m entry flag_start else m in
    let m2 = if i + 1 == size then m1 else or_flag m1 entry flag_next in
    or_flag m2 entry flag_locked

pub mark_loop : Ram → (start_index size i rounds : ℕ) → Ram
unfolding mark_entry
mark_loop m start_index size i zero = m
mark_loop m start_index size i (suc k) =
    mark_loop (mark_entry m start_index size i) start_index size (i + 1) k

unfoldable pub mark_entry_taken : Ram → (start_index size : ℕ) → Ram
unfolding mark_loop
mark_entry_taken m start_index size = mark_loop m start_index size 0 size

-- The search of findFreePages, from entry `i` on with `found` free entries just before it: the
-- first entry of the run.
pub find_loop : Ram → (pages_count i found rounds : ℕ) → Option ℕ
find_loop m pages_count i found zero = none
find_loop m pages_count i found (suc k) =
    let found' = if has_flag (m (get_table_entry i)) flag_locked then 0 else found + 1 in
    let rest = find_loop m pages_count (i + 1) found' k in
    if found' == pages_count then some (i + 1 - found') else rest

unfoldable pub find_free_pages : PageHeap → (pages_count : ℕ) → Result (ℕ × PageHeap)
unfolding find_loop mark_entry_taken
find_free_pages h pages_count = elim (find_loop h.ram pages_count 0 0 h.table_size) [
  | none ↦ err Errno.enmem
  | some start ↦ ok (
    heap_address + start * block_size,
    record h { ram = mark_entry_taken h.ram start pages_count },
  )
]

-- The pages that a request takes: getPageCount leaves its 0 where it fails.
unfoldable pub pages_of : ℕ → ℕ
unfolding get_page_count size_up_to_page
pages_of size = elim (get_page_count (size_up_to_page size)) [ ok n ↦ n | err e ↦ 0 ]

-- kzallocPage once it has its page count: `none` is the null pointer.
unfoldable pub alloc_pages : PageHeap → (pages_count : ℕ) → Option ℕ × PageHeap
alloc_pages h pages_count = elim (find_free_pages h pages_count) [
  | err e ↦ (none, h)
  | ok (mem, h') ↦ (some mem, record h' { ram = memset h'.ram mem 0 (pages_count * block_size) })
]

unfoldable pub kzalloc_page : PageHeap → (size : ℕ) → Option ℕ × PageHeap
kzalloc_page h size = alloc_pages h (pages_of size)

-- The uint64_t index is returned as an int and stored in a uint64_t again, -EIARG too.
unfoldable pub address_to_table_index : PageHeap → (address : ℕ) → ℕ
address_to_table_index h address =
    if ltb address heap_address && ltb h.table_max_size address
    then 2 ^ 64 - 3
    else through_int (sub64 address heap_address / block_size)

-- The do-while loop of freeAllocatedMemory. `none` means that the fuel ran out.
pub free_loop : Ram → (index counter fuel : ℕ) → Option Ram
free_loop m index counter zero = none
free_loop m index counter (suc k) =
    let entry = get_table_entry (index + counter) in
    let m' = poke m entry (bit_and (m entry) 0) in
    let rest = free_loop m' index (counter + 1) k in
    if has_flag (m entry) flag_next then rest else some m'

unfoldable pub free_allocated_memory : PageHeap → (index : ℕ) → Option Ram
unfolding free_loop
free_allocated_memory h index = free_loop h.ram index 0 h.table_size

-- `index < 0` is never true of a uint64_t, so the source's second check does nothing.
unfoldable pub kzfree_page : PageHeap → (pointer : ℕ) → Option (Result PageHeap)
kzfree_page h pointer =
    let index = address_to_table_index h pointer in
    let freed : Option (Result PageHeap) = elim (free_allocated_memory h index) [
      | none ↦ none
      | some m ↦ some (ok (record h { ram = m }))
    ] in
    if check_alignment pointer
    then (if has_flag (h.ram (get_table_entry index)) flag_start
        then freed
        else some (err Errno.eiarg))
    else some (err Errno.eiarg)
