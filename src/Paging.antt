-- ===== src/Paging.antt =====
-- kernel/memory/paging/paging.c: page tables of four levels. Tables are read and written by aligned
-- words of eight bytes, so the memory gives the word at each address that is a multiple of 8. A
-- mask on an address is written as arithmetic: `& 0x1FF` is `% 512`, and `& 0xFFFFFFFFFFFFF000`
-- takes the remainder modulo 4096 away.
pub mod Walk
pub mod Grow
pub mod Leaf
pub mod Map
pub mod Range
pub mod Remap
pub mod Regions
mod Tests
use boba_os.Base.{
  ℕ, zero, suc, ◌+◌, ◌-◌, ◌*◌, ◌/◌, ◌%◌, ◌^◌, Ram, poke, add64, through_int, Option, none, some,
  Bool, true, false, ◌&&◌, if◌then◌else◌, ltb, leb, ◌==◌, List, [], ◌∷◌, Result, ok, err, Errno,
  bit_and,
}

abbrev pub size_4kb : ℕ
size_4kb = 4096

-- PAGING_FLAG_P | PAGING_FLAG_RW
abbrev pub flags_p_rw : ℕ
flags_p_rw = 3

unfoldable pub down_to_page : ℕ → ℕ
down_to_page var = if var % size_4kb == 0 then var else var - var % size_4kb

unfoldable pub up_to_page : ℕ → ℕ
up_to_page var = if var % size_4kb == 0 then var else add64 var (size_4kb - var % size_4kb)

-- The address of an entry, and an address without the flags.
abbrev pub slot : (table index : ℕ) → ℕ
slot table index = table + index * 8

abbrev pub no_flags : ℕ → ℕ
no_flags entry = entry - entry % 4096

-- The flags are below 4096, so `|` adds them to an address whose low twelve bits are clear.
abbrev pub pointer_entry : (src flags : ℕ) → ℕ
pointer_entry src flags = src % 2 ^ 48 - src % 4096 + flags

abbrev pub write_pointer_table_entry : Ram → (dest src index flags : ℕ) → Ram
write_pointer_table_entry w dest src index flags =
    poke w (slot dest index) (pointer_entry src flags)

abbrev pub return_table_entry_no_flags : Ram → (table index : ℕ) → ℕ
return_table_entry_no_flags w table index = no_flags (w (slot table index))

abbrev pub pml4_index : ℕ → ℕ
pml4_index virt = (virt / 2 ^ 39) % 512

abbrev pub pdp_index : ℕ → ℕ
pdp_index virt = (virt / 2 ^ 30) % 512

abbrev pub pd_index : ℕ → ℕ
pd_index virt = (virt / 2 ^ 21) % 512

abbrev pub pt_index : ℕ → ℕ
pt_index virt = (virt / 2 ^ 12) % 512

-- 0 is the null pointer.
unfoldable pub get_pt_table : Ram → (virt table : ℕ) → ℕ
get_pt_table w virt table =
    let pdp_table = return_table_entry_no_flags w table (pml4_index virt) in
    let pd_table = return_table_entry_no_flags w pdp_table (pdp_index virt) in
    if pdp_table == 0
    then 0
    else (if pd_table == 0 then 0 else return_table_entry_no_flags w pd_table (pd_index virt))

unfoldable pub virtual_to_physical : Ram → (virt table : ℕ) → ℕ
virtual_to_physical w virt table =
    let pt_table = get_pt_table w virt table in
    if pt_table == 0
    then 0
    else return_table_entry_no_flags w pt_table (pt_index virt) + virt % 4096

-- `ptTable[ptIndex] &= ~flag`
unfoldable pub remove_page_flag : Ram → (virt flag table : ℕ) → Ram
remove_page_flag w virt flag table =
    let entry = slot (get_pt_table w virt table) (pt_index virt) in
    poke w entry (bit_and (w entry) (2 ^ 64 - 1 - flag))

-- The memory, and the number of calls of kzalloc so far.
pub record Paging : Type 0 where
  pub words : Ram
  pub calls : ℕ

-- kzalloc(4096) clears the page that it gives.
abbrev pub cleared : Ram → (page : ℕ) → Ram
cleared w page = λ a. if leb page a && ltb a (page + 4096) then 0 else w a

-- `alloc n` is what call number `n` of kzalloc gives for a page.
module _ (alloc : ℕ → Option ℕ) where
  -- A new table at `page`, entered in `table`.
  abbrev pub entered : Paging → (table index page : ℕ) → Paging
  entered t table index page = record {
    words = write_pointer_table_entry (cleared t.words page) table page index flags_p_rw;
    calls = t.calls + 1;
  }

  -- The entry, or 0 where there is no memory.
  unfoldable pub get_or_create_entry : Paging → (table index : ℕ) → ℕ × Paging
  get_or_create_entry t table index =
      if t.words (slot table index) == 0
      then elim (alloc t.calls) [
        | none ↦ (0, record t { calls = t.calls + 1 })
        | some page ↦ (page, entered t table index page)
      ]
      else (t.words (slot table index), t)

  -- The tables below `table` along the indexes, created where they are missing: the last one's
  -- address, or -ENMEM.
  unfoldable pub descend : Paging → (table : ℕ) → (indexes : List ℕ) → Result ℕ × Paging
  descend t table [] = (ok table, t)
  descend t table (index ∷ rest) =
      let (entry, t') = get_or_create_entry t table index in
      if no_flags entry == 0 then (err Errno.enmem, t') else descend t' (no_flags entry) rest

  pub write_page : (phys index : ℕ) → Result ℕ → Paging → Result (Unit {0}) × Paging
  write_page phys index (err e) t = (err e, t)
  write_page phys index (ok pt_table) t =
      (ok tt, record t { words = write_pointer_table_entry t.words pt_table phys index flags_p_rw })

  -- One round of the loop of mapOrCreateRange.
  unfoldable pub map_page : Paging → (pml4_table phys virt : ℕ) → Result (Unit {0}) × Paging
  unfolding write_page
  map_page t pml4_table phys virt =
      let (pt_table, t') =
        descend t pml4_table (pml4_index virt ∷ pdp_index virt ∷ pd_index virt ∷ []) in
      write_page phys (pt_index virt) pt_table t'

  pub after_page :
      Result (Unit {0})
      → Paging
      → (more : Bool) → (rest : Option (Result (Unit {0}) × Paging))
      → Option (Result (Unit {0}) × Paging)
  after_page (err e) t more rest = some (err e, t)
  after_page (ok u) t more rest = if more then rest else some (ok u, t)

  -- `pageCounter * SIZE_4KB` is an int. `none` means that the fuel ran out.
  pub map_loop :
      Paging
      → (pml4_table phys virt size page_counter size_mapped fuel : ℕ)
      → Option (Result (Unit {0}) × Paging)
  unfolding after_page
  map_loop t pml4_table phys virt size page_counter size_mapped zero = none
  map_loop t pml4_table phys virt size page_counter size_mapped (suc fuel) =
      let (status, t') =
        map_page t pml4_table (add64 phys (through_int (page_counter * size_4kb)))
          (add64 virt (through_int (page_counter * size_4kb))) in
      let mapped = add64 size_mapped size_4kb in
      after_page status t' (ltb mapped size)
        (map_loop t' pml4_table phys virt size (page_counter + 1) mapped fuel)

  unfoldable pub map_or_create_range :
      Paging → (pml4_table phys_start virt_start size : ℕ) → Option (Result (Unit {0}) × Paging)
  unfolding map_loop
  map_or_create_range t pml4_table phys_start virt_start size =
      map_loop t pml4_table phys_start virt_start size 0 0 (size / size_4kb + 1)
