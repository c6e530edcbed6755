-- ===== src/BuddyHeap/Calls.antt =====
-- kheap_buddy.c: kzallocBuddy and kzfreeBuddy.
use boba_os.Base.{
  ℕ, zero, suc, ◌+◌, ◌-◌, Option, none, some, ◌&&◌, ◌||◌, if◌then◌else◌, ltb, ◌==◌, Result, ok, err,
  Errno,
}
use boba_os.Memory.{memset}
use boba_os.PageHeap.{heap_address}
use boba_os.BuddyHeap.{
  Buddy, first_of, to_next_lvl, find_lvl_for_block, get_free_entry, get_buddy,
  entry_to_heap_address, heap_address_to_entry,
}
use boba_os.BuddyHeap.Blocks.{
  allocated_block, removed, remove_entry, add_entry, split_and_return, merge,
}

-- The search of kzallocBuddy for a level with a free block, from level `k - 1` down.
unfoldable pub free_lvl : Buddy → (k : ℕ) → Option ℕ
free_lvl h zero = none
free_lvl h (suc k) =
    let rest = free_lvl h k in
    let f = h.entries (first_of h k) in if f.free || f.has_entries then some k else rest

-- The block that is taken. `none` is a read through NULL.
unfoldable pub take_block :
    Buddy → (block : ℕ) → Option (Option ℕ × Buddy) → Option (Option ℕ × Buddy)
take_block h block none = none
take_block h block (some (none, h')) = none
take_block h block (some (some g, h')) =
    let h2 = removed h' (remove_entry h' g allocated_block) in
    let address = entry_to_heap_address h2 g in
    some (some address, record h2 { ram = memset h2.ram address 0 block })

-- The address, `none` for NULL, and the heap. The outer `none` is a read or a write through NULL.
unfoldable pub kzalloc_buddy : Buddy → (size : ℕ) → Option (Option ℕ × Buddy)
kzalloc_buddy h size =
    let block = to_next_lvl size in
    if (size == 0) || ltb h.max_page size
    then some (none, h)
    else elim (find_lvl_for_block h block) [
      | none ↦ some (none, h)
      | some search ↦ elim (free_lvl h (search + 1)) [
        | none ↦ some (none, h)
        | some found ↦
            if search == found
            then take_block h block (some (get_free_entry h search, h))
            else take_block h block (split_and_return h none found (search - found))
      ]
    ]

unfoldable pub kzfree_buddy : Buddy → (pointer : ℕ) → Option (Result Buddy)
kzfree_buddy h pointer =
    let released : ℕ → Option Buddy = λ g.
      let buddy = get_buddy h g in
      if ltb 0 (h.entries buddy).lvl && (h.entries buddy).free
      then merge h.max_lvl h g buddy
      else add_entry h g (h.entries g).lvl in
    if ltb pointer heap_address || ltb (heap_address + h.heap_size) pointer
    then some (err Errno.eiarg)
    else elim (heap_address_to_entry h pointer) [
      | none ↦ some (err Errno.eiarg)
      | some g ↦ elim (released g) [ none ↦ none | some h' ↦ some (ok h') ]
    ]
