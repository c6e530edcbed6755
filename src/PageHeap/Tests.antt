-- ===== src/PageHeap/Tests.antt =====
-- Heaps of four blocks, and the theorems about kheap_page.c at them.
use boba_os.Base.{◌+◌, ◌*◌, ◌≡◌, refl, poke, some, [], ◌∷◌, arith, ok, err, Errno}
use boba_os.PageHeap.{
  PageHeap, heap_address, block_size, pages_of, kzalloc_page, kzfree_page, find_free_pages,
  check_alignment, alloc_pages,
}
use boba_os.PageHeap.Spec.{Blocks, view, Renders, block_byte, starts}
use boba_os.PageHeap.Alloc.{kzalloc_page-Allocated, Allocated}
use boba_os.PageHeap.Free.{kzfree_page-rejects, kzfree_page-Freed, Freed, block_address}
use boba_os.PageHeap.Pages.{kzalloc_page-zero, kzfree_page-kzalloc_page}

abbrev empty : PageHeap
empty = record { ram = λ a. 0; table_size = 4; table_max_size = 0x9FC00 }

empty-Renders : Renders empty []
unfolding view
empty-Renders = record { shown = λ i b. refl; apart = tt; small = omega arith }

-- One block of two entries, from entry 1 on.
abbrev used : PageHeap
used = record empty { ram = poke (poke (λ a. 0) 1 0xC1) 2 0x01 }

abbrev blocks : Blocks
blocks = (1, 2) ∷ []

used-Renders : Renders used blocks
unfolding view block_byte
used-Renders = record {
  shown = λ i b. ground arith;
  apart = (omega arith, omega arith, (λ i w. refl), tt);
  small = omega arith;
}

three_pages : pages_of 8193 ≡ 3
unfolding pages_of check_alignment
three_pages = refl

-- The run of three free entries that is asked for is not there.
kzalloc_page-Allocated_example :
    Allocated used blocks (pages_of 8193) (kzalloc_page used 8193).0 (kzalloc_page used 8193).1
unfolding pages_of check_alignment
kzalloc_page-Allocated_example = kzalloc_page-Allocated used blocks used-Renders 8193 (omega arith)

kzfree_page-rejects_example : kzfree_page used (block_address 2) ≡ some (err Errno.eiarg)
unfolding starts
kzfree_page-rejects_example = kzfree_page-rejects used blocks used-Renders 2 (omega arith) refl

kzfree_page-Freed_example : (h' : PageHeap) × Freed used blocks used-Renders 1 (omega arith) h'
unfolding starts
kzfree_page-Freed_example = kzfree_page-Freed used blocks used-Renders 1 (omega arith) refl

kzalloc_page-zero_example : kzalloc_page used 0 ≡ (some (heap_address + 2 * block_size), used)
unfolding pages_of check_alignment
kzalloc_page-zero_example = kzalloc_page-zero used 0 1 refl (omega arith) refl (λ j b. ground arith)

-- 4097 bytes take two blocks.
kzfree_page-kzalloc_page_example :
    (h'' : PageHeap) × (kzfree_page (kzalloc_page empty 4097).1 (block_address 0) ≡ some (ok h''))
    × Renders h'' []
unfolding kzalloc_page alloc_pages find_free_pages pages_of check_alignment
kzfree_page-kzalloc_page_example =
    kzfree_page-kzalloc_page empty [] 4097 (block_address 0) empty-Renders (omega arith) refl
