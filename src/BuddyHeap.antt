-- ===== src/BuddyHeap.antt =====
-- kernel/memory/kheap/kheap_buddy.c: the kernel heap in blocks whose sizes are powers of two, and
-- kernel/memory/kheap/kheap.c, which calls it or the heap of pages.
pub mod Blocks
pub mod Calls
pub mod Sizes
pub mod Front
mod Tests
use boba_os.Base.{
  ℕ, zero, suc, ◌+◌, ◌-◌, ◌*◌, ◌/◌, ◌%◌, ◌^◌, Ram, Option, none, some, Bool, true, false, not, ◌&&◌,
  ◌||◌, if◌then◌else◌, ltb, leb, ◌==◌, Result, ok, err, Errno,
}
use boba_os.Memory.{memset}
use boba_os.PageHeap.{heap_address, table_address}

-- BOBAOS_KERNEL_HEAP_SMALLEST_PAGE, BOBAOS_KERNEL_HEAP_BIGGEST_PAGE, KHEAP_MAX_ALLOWED_LEVEL
abbrev pub smallest_page : ℕ
smallest_page = 0x400

abbrev pub biggest_page : ℕ
biggest_page = 0x20000

abbrev pub max_allowed_level : ℕ
max_allowed_level = 32

-- struct blockEntry, with its flags. A pointer is the number of the entry from the start of the
-- tables on, which lie one behind the other.
pub record BlockEntry : Type 0 where
  pub next : Option ℕ
  pub prev : Option ℕ
  pub lvl : ℕ
  pub free : Bool
  pub splitup : Bool
  pub allocated : Bool
  pub has_entries : Bool

-- sizeof(struct blockEntry)
abbrev pub entry_bytes : ℕ
entry_bytes = 18

-- struct tableMetaData. `first` is the number of the table's first entry.
pub record Level : Type 0 where
  pub max_entries : ℕ
  pub first : ℕ
  pub block_size : ℕ

-- The globals of kheap_buddy.c, and the memory of the blocks.
pub record Buddy : Type 0 where
  pub ram : Ram
  pub entries : ℕ → BlockEntry
  pub levels : ℕ → Level
  pub max_lvl : ℕ
  pub heap_size : ℕ
  pub max_page : ℕ

-- The loop of toNextLvl on a uint64_t, which has at most 64 bits to shift out.
unfoldable pub next_lvl_loop : (rounds n ret : ℕ) → ℕ
next_lvl_loop zero n ret = ret
next_lvl_loop (suc rounds) n ret =
    let rest = next_lvl_loop rounds (n / 2) (ret * 2 % 2 ^ 64) in if n == 0 then ret else rest

unfoldable pub to_next_lvl : (n : ℕ) → ℕ
to_next_lvl n = if n == 0 then 1 else next_lvl_loop 64 (n - 1) 1

-- detectMaxLvl: the loop from `i` on, with `rounds` values of `i` left.
unfoldable pub detect_loop : (rounds i page : ℕ) → ℕ
detect_loop zero i page = 0
detect_loop (suc rounds) i page =
    let rest = detect_loop rounds (i + 1) (page / 2) in if page == smallest_page then i else rest

unfoldable pub detect_max_lvl : (max_page : ℕ) → ℕ
detect_max_lvl max_page = detect_loop 31 1 max_page

unfoldable pub empty_entry : BlockEntry
empty_entry = record {
  next = none;
  prev = none;
  lvl = 0;
  free = false;
  splitup = false;
  allocated = false;
  has_entries = false;
}

-- readMetaData: level `lvl`, with the tables of the levels before it in front.
unfoldable pub read_level : (heap_size page lvl : ℕ) → Level
read_level heap_size page zero = record {
  max_entries = heap_size / page;
  first = 0;
  block_size = page;
}
read_level heap_size page (suc lvl) =
    let before = read_level heap_size page lvl in
    record {
      max_entries = heap_size / (before.block_size / 2);
      first = before.first + before.max_entries;
      block_size = before.block_size / 2;
    }

-- initLvlTable: the entries of level 0 are free and linked in their order.
unfoldable pub init_entry : (max_entries i : ℕ) → BlockEntry
unfolding empty_entry
init_entry max_entries i =
    if ltb i max_entries
    then record empty_entry {
      free = true;
      prev = if ltb 0 i then some (i - 1) else none;
      next = if i + 1 == max_entries then none else some (i + 1);
    }
    else empty_entry

-- The start of the tables: with the table at address 0 one entry is skipped.
abbrev pub tables_start : ℕ
tables_start = if table_address == 0 then entry_bytes else table_address

-- kheapInitBuddy. `max_page` is what halving leads to, and `lower_memory` what
-- getMaxMemorySize() - getUpperMemorySize() gives.
unfoldable pub kheap_init_buddy : (ram : Ram) (heap_size lower_memory : ℕ) → Result Buddy
kheap_init_buddy ram heap_size lower_memory =
    let whole = to_next_lvl heap_size in
    let max_lvl = detect_max_lvl biggest_page in
    let last = read_level whole biggest_page (max_lvl - 1) in
    if not (last.block_size == smallest_page)
    then err Errno.enmem
    else if ltb lower_memory (tables_start + entry_bytes * (last.first + last.max_entries))
    then err Errno.enmem
    else ok (record {
      ram = ram;
      entries = init_entry (whole / biggest_page);
      levels = read_level whole biggest_page;
      max_lvl = max_lvl;
      heap_size = whole;
      max_page = biggest_page;
    })

-- A change of one entry.
abbrev pub with_entry : Buddy → ℕ → (BlockEntry → BlockEntry) → Buddy
with_entry h g f = record h { entries = λ k. if k == g then f (h.entries k) else h.entries k }

-- lvlTable[lvl]: behind the last level it is NULL.
abbrev pub lvl_table : Buddy → ℕ → Option ℕ
lvl_table h lvl = if ltb lvl h.max_lvl then some (h.levels lvl).first else none

abbrev pub first_of : Buddy → ℕ → ℕ
first_of h lvl = (h.levels lvl).first

-- The number of an entry in its table.
abbrev pub index_in_level : Buddy → ℕ → ℕ
index_in_level h g = g - first_of h (h.entries g).lvl

unfoldable pub lvl_to_block_size : Buddy → (lvl : ℕ) → ℕ
lvl_to_block_size h lvl = (h.levels lvl).block_size

-- findLvlForBlock, from level `k - 1` down. `none` is -ENFOUND.
unfoldable pub find_lvl_loop : Buddy → (block k : ℕ) → Option ℕ
find_lvl_loop h block zero = none
find_lvl_loop h block (suc k) =
    let rest = find_lvl_loop h block k in if (h.levels k).block_size == block then some k else rest

unfoldable pub find_lvl_for_block : Buddy → (block : ℕ) → Option ℕ
find_lvl_for_block h block = find_lvl_loop h block h.max_lvl

unfoldable pub get_higher_table_entry : Buddy → (g : ℕ) → Option ℕ
get_higher_table_entry h g =
    let lvl = (h.entries g).lvl in
    if lvl + 1 == h.max_lvl then none else some (first_of h (lvl + 1) + 2 * index_in_level h g)

unfoldable pub get_lower_table_entry : Buddy → (g : ℕ) → Option ℕ
get_lower_table_entry h g =
    let lvl = (h.entries g).lvl in
    if lvl == 0 then none else some (first_of h (lvl - 1) + index_in_level h g / 2)

unfoldable pub get_free_entry : Buddy → (lvl : ℕ) → Option ℕ
get_free_entry h lvl =
    let f = h.entries (first_of h lvl) in
    if f.has_entries then (if f.free then some (first_of h lvl) else f.next) else none

unfoldable pub get_buddy : Buddy → (g : ℕ) → ℕ
get_buddy h g = if index_in_level h g % 2 == 0 then g + 1 else g - 1

unfoldable pub entry_to_heap_address : Buddy → (g : ℕ) → ℕ
entry_to_heap_address h g =
    heap_address + index_in_level h g * lvl_to_block_size h (h.entries g).lvl

-- heapAddressToEntry: the loop from level `lvl` on, of which `k` are left.
unfoldable pub entry_loop : Buddy → (offset k lvl page : ℕ) → Option ℕ
entry_loop h offset zero lvl page = none
entry_loop h offset (suc k) lvl page =
    let g = first_of h lvl + offset / page in
    let rest = entry_loop h offset k (lvl + 1) (page / 2) in
    if (h.entries g).allocated then some g else rest

unfoldable pub heap_address_to_entry : Buddy → (address : ℕ) → Option ℕ
heap_address_to_entry h address = entry_loop h (address - heap_address) h.max_lvl 0 h.max_page
