-- ===== src/BuddyHeap/Tests.antt =====
-- A heap of 128 MiB, as it is set up.
use boba_os.Base.{ℕ, ◌+◌, ◌*◌, ◌^◌, ◌≤◌, ◌<◌, ◌≡◌, refl, Ram, Option, some, none, ok, arith}
use boba_os.BuddyHeap.{
  Buddy, to_next_lvl, next_lvl_loop, kheap_init_buddy, get_lower_table_entry,
  get_higher_table_entry, get_buddy, read_level, detect_max_lvl, detect_loop, init_entry,
  biggest_page, with_entry, first_of, find_lvl_for_block, find_lvl_loop, empty_entry,
  get_free_entry, entry_to_heap_address, lvl_to_block_size,
}
use boba_os.BuddyHeap.Calls.{kzalloc_buddy, free_lvl, take_block}
use boba_os.BuddyHeap.Blocks.{
  split_and_return, split_entry_up, block_to_split, split_block, add_entry, link_entry,
  remove_entry, unlink_first, unlink_entry,
}
use boba_os.BuddyHeap.Sizes.{
  to_next_lvl-Above, kzalloc_buddy-init, get_lower_table_entry-get_higher_table_entry,
}

abbrev zeros : Ram
zeros a = 0

to_next_lvl-Above_example :
    (k : ℕ) × (to_next_lvl 1000 ≡ 2 ^ k) × (1000 ≤ 2 ^ k) × (2 ^ k < 2 * 1000)
to_next_lvl-Above_example = to_next_lvl-Above 1000 (omega arith) (omega arith)

abbrev heap : Buddy
heap = record {
  ram = zeros;
  entries = init_entry 1024;
  levels = read_level (2 ^ 27) biggest_page;
  max_lvl = 8;
  heap_size = 2 ^ 27;
  max_page = biggest_page;
}

heap_set_up : kheap_init_buddy zeros (2 ^ 27) (2 ^ 23) ≡ ok heap
unfolding kheap_init_buddy to_next_lvl next_lvl_loop detect_max_lvl detect_loop read_level
heap_set_up = refl

kzalloc_buddy-init_example : kzalloc_buddy heap 100 ≡ some (none, heap)
kzalloc_buddy-init_example =
    kzalloc_buddy-init zeros (2 ^ 27) (2 ^ 23) 100 heap_set_up (omega arith) (omega arith)

abbrev answer_of : Option (Option ℕ × Buddy) → Option (Option ℕ)
answer_of none = none
answer_of (some (a, h)) = some a

-- An allocation on the new heap reads or writes through NULL: of the biggest block, of the smallest,
-- and between.
biggest : answer_of (kzalloc_buddy heap 100000) ≡ none
unfolding kzalloc_buddy find_lvl_for_block find_lvl_loop to_next_lvl next_lvl_loop free_lvl
    init_entry read_level take_block get_free_entry empty_entry
biggest = refl

smallest : answer_of (kzalloc_buddy heap 700) ≡ none
unfolding kzalloc_buddy find_lvl_for_block find_lvl_loop to_next_lvl next_lvl_loop free_lvl
    init_entry read_level take_block get_free_entry empty_entry split_and_return split_entry_up
    block_to_split split_block add_entry link_entry get_higher_table_entry remove_entry unlink_first
    unlink_entry
smallest = refl

between : answer_of (kzalloc_buddy heap 2000) ≡ none
unfolding kzalloc_buddy find_lvl_for_block find_lvl_loop to_next_lvl next_lvl_loop free_lvl
    init_entry read_level take_block get_free_entry empty_entry split_and_return split_entry_up
    block_to_split split_block add_entry link_entry get_higher_table_entry remove_entry unlink_first
    unlink_entry entry_to_heap_address lvl_to_block_size
between = refl

-- Entries 1024 and 1025 are of the second level.
abbrev two_levels : Buddy
two_levels =
    with_entry (with_entry heap 1024 (λ x. record x { lvl = 1 })) 1025 (λ x. record x { lvl = 1 })

higher_0 : get_higher_table_entry two_levels 0 ≡ some 1024
unfolding get_higher_table_entry init_entry empty_entry read_level
higher_0 = refl

level_1024 : (two_levels.entries 1024).lvl ≡ (two_levels.entries 0).lvl + 1
unfolding init_entry empty_entry
level_1024 = refl

level_1025 : (two_levels.entries 1025).lvl ≡ (two_levels.entries 0).lvl + 1
unfolding init_entry empty_entry
level_1025 = refl

first_0 : first_of two_levels (two_levels.entries 0).lvl ≤ 0
unfolding init_entry empty_entry read_level
first_0 = omega arith

get_lower_table_entry-get_higher_table_entry_example :
    (get_lower_table_entry two_levels 1024 ≡ some 0)
    × (get_lower_table_entry two_levels 1025 ≡ some 0)
    × (get_buddy two_levels 1024 ≡ 1025)
    × (get_buddy two_levels 1025 ≡ 1024)
get_lower_table_entry-get_higher_table_entry_example =
    get_lower_table_entry-get_higher_table_entry two_levels 0 1024 first_0 higher_0 level_1024
      level_1025
