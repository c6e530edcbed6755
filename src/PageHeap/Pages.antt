-- ===== src/PageHeap/Pages.antt =====
-- How many entries a request takes, the requests that take none, and a block given back at once.
use boba_os.Base.{
  ℕ, zero, suc, ◌+◌, ◌*◌, ◌≤◌, ◌<◌, ◌≡◌, refl, ◌^◌, Ram, true, some, ◌∷◌, arith, ok, ◌∙◌, ap, ne→==,
  eq→==,
}
use boba_os.Memory.{memset}
use boba_os.PageHeap.{
  PageHeap, block_size, heap_address, get_table_entry, has_flag, flag_locked, find_loop,
  check_alignment, mark_entry_taken, find_free_pages, pages_of, alloc_pages, kzalloc_page,
  kzfree_page,
}
use boba_os.PageHeap.Spec.{Blocks, Renders, starts}
use boba_os.PageHeap.Find.{IsFree}
use boba_os.PageHeap.Alloc.{Taken, Allocated, kzalloc_page-Allocated}
use boba_os.PageHeap.Free.{kzfree_page-Freed}

-- A request below 2^64 - 4095 is rounded up to whole blocks, and to no more than needed.
pub pages_of-rounds :
    (size : ℕ)
    → size + block_size ≤ 2 ^ 64
    → (size ≤ pages_of size * block_size) × (pages_of size * block_size < size + block_size)
unfolding pages_of check_alignment
pages_of-rounds size h = ground arith

-- The first locked entry is `t`: a search for no entries stops there, with nothing found.
module _ (m : Ram) (t : ℕ) (locked : has_flag (m (get_table_entry t)) flag_locked ≡ true) where
  find_loop-zero :
      (d k i found : ℕ)
      → i + d ≡ t
      → d < k
      → ((j : ℕ) → j < t → IsFree m j)
      → find_loop m 0 i found k ≡ some (t + 1)
  unfolding find_loop
  find_loop-zero d zero i found e b free = absurd (omega arith)
  find_loop-zero zero (suc k) i found e b free =
      let here : i ≡ t = omega arith in rw (here, locked) (ap some (omega arith))
  find_loop-zero (suc d) (suc k) i found e b free =
      rw (free i (omega arith), ne→== (found + 1) 0 (omega arith))
        (find_loop-zero d k (i + 1) (found + 1) (omega arith) (omega arith) free)

alloc_pages-zero :
    (h : PageHeap) (t : ℕ)
    → t < h.table_size
    → has_flag (h.ram (get_table_entry t)) flag_locked ≡ true
    → ((j : ℕ) → j < t → IsFree h.ram j)
    → alloc_pages h 0 ≡ (some (heap_address + (t + 1) * block_size), h)
unfolding alloc_pages find_free_pages mark_entry_taken memset
alloc_pages-zero h t b locked free = rw (
  find_loop-zero h.ram t locked t h.table_size 0 0 (omega arith) b free,
  alloc_pages,
  find_free_pages,
)

-- A request that rounds to no block (size 0, or one within 4095 of 2^64) is answered with the
-- address just behind the first locked entry, and nothing is reserved or changed.
pub kzalloc_page-zero :
    (h : PageHeap) (size t : ℕ)
    → pages_of size ≡ 0
    → t < h.table_size
    → has_flag (h.ram (get_table_entry t)) flag_locked ≡ true
    → ((j : ℕ) → j < t → IsFree h.ram j)
    → kzalloc_page h size ≡ (some (heap_address + (t + 1) * block_size), h)
unfolding kzalloc_page
kzalloc_page-zero h size t none_asked b locked free =
    rw none_asked (alloc_pages-zero h t b locked free)

freed_again :
    (h h' : PageHeap) (bs : Blocks) (n s p : ℕ)
    → Taken h h' bs n s p
    → (h'' : PageHeap) × (kzfree_page h' p ≡ some (ok h'')) × Renders h'' bs
unfolding starts
freed_again h h' bs n s p taken =
    let b : s < h'.table_size = omega arith in
    let st : starts ((s, n) ∷ bs) s ≡ true = rw (eq→== s s refl) in
    let (h'', freed) = kzfree_page-Freed h' ((s, n) ∷ bs) taken.renders s b st in
    (h'', ap (kzfree_page h') taken.address ∙ freed.done, rw (eq→== s s refl) at freed.renders)

-- On a table that shows separate blocks, a block of at least one page that kzallocPage hands out
-- is taken back by kzfreePage, and the table shows again the blocks that it showed before.
pub kzfree_page-kzalloc_page :
    (h : PageHeap) (bs : Blocks) (size p : ℕ)
    → Renders h bs
    → 0 < pages_of size
    → (kzalloc_page h size).0 ≡ some p
    → (h'' : PageHeap) × (kzfree_page (kzalloc_page h size).1 p ≡ some (ok h'')) × Renders h'' bs
kzfree_page-kzalloc_page h bs size p r pos got =
    let allocated : Allocated h bs (pages_of size) (some p) (kzalloc_page h size).1 =
      rw got at (kzalloc_page-Allocated h bs r size pos) in
    freed_again h (kzalloc_page h size).1 bs (pages_of size) allocated.0 p allocated.1
