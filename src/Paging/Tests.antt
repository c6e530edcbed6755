-- ===== src/Paging/Tests.antt =====
-- Empty tables at 16 MiB, and a heap of 64 pages below them.
use boba_os.Base.{
  ℕ, ◌+◌, ◌-◌, ◌*◌, ◌≡◌, ◌≢◌, refl, ◌∙◌, Option, none, some, if◌then◌else◌, ltb, List, [], ◌∷◌,
  arith, Result, ok,
}
use boba_os.Paging.{
  Paging, map_or_create_range, map_loop, map_page, descend, get_or_create_entry, write_page,
  after_page, virtual_to_physical,
}
use boba_os.Paging.Walk.{walk, word, Pages, Tree}
use boba_os.Paging.Range.{
  MappedRange, map_or_create_range-MappedRange, virtual_to_physical-map_or_create_range,
}
use boba_os.Paging.Regions.{
  MemoryMap, get_memory_map_for_address, rework_memory_map, lower_memory, size_1mb,
  get_memory_map_for_address-rework_memory_map, lower_entries,
}
use boba_os.Paging.Remap.{remap_virtual_to_virtual_range, remap_virtual_to_virtual_range-ok}

abbrev heap : ℕ → Option ℕ
heap n = if ltb n 64 then some ((n + 1) * 4096) else none

heap-Pages : Pages heap
heap-Pages = record {
  aligned = λ n p e. ground arith;
  bounds = λ n p e. ground arith;
  apart = λ n k p e e'. ground arith;
}

abbrev root : ℕ
root = 0x1000000

abbrev tables : Paging
tables = record { words = λ a. 0; calls = 0 }

walk-tables : (i : ℕ) (is : List ℕ) → walk tables.words root (i ∷ is) ≡ 0
unfolding walk
walk-tables i is = ground arith

alone :
    (is js : List ℕ)
    → walk tables.words root is ≢ 0
    → walk tables.words root is ≡ walk tables.words root js
    → is ≡ js
unfolding walk
alone [] [] ne e = refl
alone [] (j ∷ js) ne e = absurd (ne (e ∙ walk-tables j js))
alone (i ∷ is) js ne e = absurd (ne (walk-tables i is))

apart : (n p : ℕ) (is : List ℕ) → heap n ≡ some p → walk tables.words root is ≢ p
unfolding walk
apart n p [] got e = ground arith
apart n p (i ∷ is) got e = ground (arith, walk-tables i is)

tables-Tree : Tree heap root tables
unfolding word
tables-Tree = record {
  root_aligned = refl;
  root_there = omega arith;
  distinct = λ is js h h' ne e. alone is js ne e;
  pointers = λ i is h ne z. ne (ground arith);
  fresh = λ n p is later got h. apart n p is got;
}

abbrev outcome : Option (Result (Unit {0}) × Paging)
outcome = map_or_create_range heap tables root 0x5000 0x7000 8192

map_or_create_range-MappedRange_example :
    MappedRange heap heap-Pages root 0x5000 0x7000 8192 0 tables outcome
map_or_create_range-MappedRange_example =
    map_or_create_range-MappedRange heap heap-Pages root tables tables-Tree 0x5000 0x7000 8192
      (omega arith) (omega arith) (omega arith) (omega arith)

abbrev state : Option (Result (Unit {0}) × Paging) → Paging
state none = tables
state (some (r, t)) = t

two_pages : outcome ≡ some (ok tt, state outcome)
unfolding map_or_create_range map_loop map_page descend get_or_create_entry write_page after_page
two_pages = refl

-- The 16th byte of the second page.
virtual_to_physical-map_or_create_range_example :
    virtual_to_physical (state outcome).words 0x8010 root ≡ 0x5000 + (0x8010 - 0x7000)
virtual_to_physical-map_or_create_range_example =
    virtual_to_physical-map_or_create_range heap heap-Pages root tables tables-Tree 0x5000 0x7000
      8192 (omega arith) (omega arith) (omega arith) (omega arith) 0x8010 refl refl two_pages
      (omega arith) (omega arith)

abbrev no_heap : ℕ → Option ℕ
no_heap n = none

remap_virtual_to_virtual_range-ok_example :
    (t' : Paging) × (remap_virtual_to_virtual_range no_heap tables 0x5000 0x7000 8192 root
      ≡ some (ok tt, t'))
remap_virtual_to_virtual_range-ok_example =
    remap_virtual_to_virtual_range-ok no_heap tables 0x5000 0x7000 8192 root

abbrev region : (address length : ℕ) → MemoryMap
region address length = record { address = address; length = length; type = 1 }

abbrev regions : List MemoryMap
regions = region 0 0x9FC00 ∷ region 0x9FC00 0x400 ∷ region 0x100000 0x8000000 ∷ []

get_memory_map_for_address-rework_memory_map_example :
    get_memory_map_for_address (lower_memory ∷ region 0x100000 0x8000000 ∷ []) 0x200000 ≡ (
      if ltb 0x200000 size_1mb
      then some lower_memory
      else get_memory_map_for_address regions 0x200000)
unfolding rework_memory_map lower_entries
get_memory_map_for_address-rework_memory_map_example =
    get_memory_map_for_address-rework_memory_map regions _ 0x200000 (omega arith) refl
