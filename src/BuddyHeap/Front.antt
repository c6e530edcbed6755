-- ===== src/BuddyHeap/Front.antt =====
-- kernel/memory/kheap/kheap.c: the heap that kheapInit selects.
use boba_os.Base.{ℕ, Ram, Option, none, some, Result, ok, err, Errno, ◌==◌, if◌then◌else◌}
use boba_os.PageHeap.{PageHeap, kheap_init_table, kzalloc_page, kzfree_page}
use boba_os.BuddyHeap.{Buddy, kheap_init_buddy}
use boba_os.BuddyHeap.Calls.{kzalloc_buddy, kzfree_buddy}

-- enum kernelHeapType
pub data KernelHeapType : Type 0 where
  page buddy : KernelHeapType

-- `selected`, with the state of the heap that it names.
pub data Heap : Type 0 where
  of_pages : PageHeap → Heap
  of_buddies : Buddy → Heap

abbrev pub of_page_result : Result PageHeap → Result Heap
of_page_result (ok h) = ok (of_pages h)
of_page_result (err e) = err e

abbrev pub of_buddy_result : Result Buddy → Result Heap
of_buddy_result (ok h) = ok (of_buddies h)
of_buddy_result (err e) = err e

-- `heap_size` is BOBAOS_KERNEL_HEAP_SIZE, and `lower_memory` the memory below the heap.
unfoldable pub kheap_init :
    KernelHeapType → (ram : Ram) → (heap_size lower_memory : ℕ) → Result Heap
kheap_init page ram heap_size lower_memory = of_page_result (kheap_init_table ram lower_memory)
kheap_init buddy ram heap_size lower_memory =
    of_buddy_result (kheap_init_buddy ram heap_size lower_memory)

abbrev pub of_buddy_answer : Option (Option ℕ × Buddy) → Option (Option ℕ × Heap)
of_buddy_answer none = none
of_buddy_answer (some (a, h)) = some (a, of_buddies h)

-- The address, `none` for NULL, and the heap. The outer `none` is undefined behaviour.
unfoldable pub kzalloc : Heap → (size : ℕ) → Option (Option ℕ × Heap)
kzalloc (of_pages h) size = let (a, h') = kzalloc_page h size in some (a, of_pages h')
kzalloc (of_buddies h) size = of_buddy_answer (kzalloc_buddy h size)

abbrev pub lifted {ℓ} : {A : Type ℓ} → (A → Result Heap) → Option A → Option (Result Heap)
lifted f none = none
lifted f (some a) = some (f a)

-- NULL is the pointer 0.
unfoldable pub kzfree : Heap → (pointer : ℕ) → Option (Result Heap)
kzfree h pointer = if pointer == 0 then some (err Errno.eiarg) else elim h [
  | of_pages h ↦ lifted of_page_result (kzfree_page h pointer)
  | of_buddies h ↦ lifted of_buddy_result (kzfree_buddy h pointer)
]
