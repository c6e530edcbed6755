-- ===== src/PageHeap/Alloc.antt =====
-- kzallocPage against the list of blocks.
use boba_os.Base.{
  ℕ, zero, suc, ◌+◌, ◌-◌, ◌*◌, ◌≤◌, ◌<◌, ◌≡◌, refl, Ram, true, false, if◌then◌else◌, ◌==◌, Option,
  none, some, ◌∷◌, arith, Bool-cases, inl, inr, ap, ◌∙◌, sym, Option-cases,
}
use boba_os.Memory.{memset}
use boba_os.Memory.Copy.{within, memset-at, within-bounds}
use boba_os.PageHeap.{
  PageHeap, block_size, heap_address, get_table_entry, mark_entry, mark_loop, mark_entry_taken,
  find_loop, find_free_pages, pages_of, alloc_pages, kzalloc_page,
}
use boba_os.PageHeap.Spec.{Blocks, block_byte, view, Renders, view_free}
use boba_os.PageHeap.Find.{FreeRun, IsFree, find_loop-first}

mark_entry-at :
    (m : Ram) (start n i a : ℕ)
    → m (get_table_entry (i + start)) ≡ 0
    → mark_entry m start n i a ≡ (if a == get_table_entry (i + start) then block_byte n i else m a)
unfolding mark_entry block_byte
mark_entry-at m start n i a free = elim (Bool-cases (a == get_table_entry (i + start))) [
  | inl here ↦ ground arith
  | inr there ↦ ground arith
]

mark_loop-at :
    (k : ℕ) (m : Ram) (start n i a : ℕ)
    → i + k ≡ n
    → ((j : ℕ) → i ≤ j → j < n → m (get_table_entry (j + start)) ≡ 0)
    → mark_loop m start n i k a ≡ (if within (start + i) k a then block_byte n (a - start) else m a)
unfolding mark_loop
mark_loop-at zero m start n i a e free = ground arith
mark_loop-at (suc k) m start n i a e free = ground (
  arith,
  mark_loop-at k (mark_entry m start n i) start n (i + 1) a (omega arith) (λ j h h'. ground (
    arith,
    free j,
    mark_entry-at m start n i (get_table_entry (j + start)) (free i (omega arith) (omega arith)),
  )),
  mark_entry-at m start n i a (free i (omega arith) (omega arith)),
  ap (block_byte n) {x = a - start} {y = i},
)

-- No `n` entries in a row are free in the table.
abbrev pub NoRun : (table_size : ℕ) → Blocks → (n : ℕ) → Type 0
NoRun ts bs n = (s : ℕ) → s + n ≤ ts → ¬ ((i : ℕ) → s ≤ i → i < s + n → view bs i ≡ 0)

-- The heap after `n` entries were taken from `s` on, for a block that begins at `p`.
pub record Taken (h h' : PageHeap) (bs : Blocks) (n s p : ℕ) : Type 0 where
  pub address : p ≡ heap_address + s * block_size
  pub renders : Renders h' ((s, n) ∷ bs)
  pub zeroed : (a : ℕ) → within p (n * block_size) a ≡ true → h'.ram a ≡ 0
  pub others : (a : ℕ) → heap_address ≤ a → within p (n * block_size) a ≡ false → h'.ram a ≡ h.ram a
  pub first : (t : ℕ) → t < s → ¬ ((i : ℕ) → t ≤ i → i < t + n → view bs i ≡ 0)

-- What `kzalloc_page` may answer for `n` entries.
abbrev pub Allocated : PageHeap → Blocks → (n : ℕ) → Option ℕ → PageHeap → Type 0
Allocated h bs n none h' = (h' ≡ h) × NoRun h.table_size bs n
Allocated h bs n (some p) h' = (s : ℕ) × Taken h h' bs n s p

module _ (h : PageHeap) (bs : Blocks) (r : Renders h bs) where
  entry-free : (i : ℕ) → i < h.table_size → IsFree h.ram i → h.ram (get_table_entry i) ≡ 0
  entry-free i b f = r.shown i b ∙ view_free bs i (rw (← r.shown i b) f)

  view-IsFree : (i : ℕ) → i < h.table_size → view bs i ≡ 0 → IsFree h.ram i
  view-IsFree i b e = rw (r.shown i b, e)

  -- The table with the block marked shows one block more.
  marked-view :
      (s n i : ℕ)
      → FreeRun h.ram s n
      → s + n ≤ h.table_size
      → i < h.table_size
      → mark_entry_taken h.ram s n (get_table_entry i) ≡ view ((s, n) ∷ bs) i
  unfolding mark_entry_taken view
  marked-view s n i free fits b = ground (
    arith,
    mark_loop-at n h.ram s n 0 (get_table_entry i) (omega arith)
        (λ j low high. entry-free (j + s) (omega arith) (free (j + s) (omega arith) (omega arith))),
    ap (block_byte n) {x = get_table_entry i - s} {y = i - s},
    r.shown i b,
  )

  module _ (n : ℕ) (some_pages : 0 < n) (s : ℕ) (free : FreeRun h.ram s n)
      (fits : s + n ≤ h.table_size) where
    abbrev taken : PageHeap
    taken = record h {
      ram = memset (mark_entry_taken h.ram s n) (heap_address + s * block_size) 0 (n * block_size);
    }

    run-view : (i : ℕ) → within s n i ≡ true → view bs i ≡ 0
    run-view i w =
        let (low, high) = within-bounds s n i w in
        sym (r.shown i (omega arith)) ∙ entry-free i (omega arith) (free i low high)

    taken-Renders : Renders taken ((s, n) ∷ bs)
    taken-Renders = record {
      shown = λ i b. ground (
        arith,
        memset-at (mark_entry_taken h.ram s n) (heap_address + s * block_size) 0 (n * block_size)
            (get_table_entry i),
        marked-view s n i free fits b,
        r.small,
      );
      apart = (some_pages, fits, run-view, r.apart);
      small = r.small;
    }

    -- The marks lie in the table, so the heap's bytes change by the `memset` alone.
    marked-above : (a : ℕ) → heap_address ≤ a → mark_entry_taken h.ram s n a ≡ h.ram a
    unfolding mark_entry_taken
    marked-above a high = ground (
      arith,
      mark_loop-at n h.ram s n 0 a (omega arith)
          (λ j low b. entry-free (j + s) (omega arith) (free (j + s) (omega arith) (omega arith))),
      r.small,
    )

    taken-Taken :
        ((t : ℕ) → t < s → ¬ (FreeRun h.ram t n))
        → Taken h taken bs n s (heap_address + s * block_size)
    taken-Taken first = record {
      address = refl;
      renders = taken-Renders;
      zeroed = λ a w. ground (arith, cleared a);
      others = λ a high w. ground (arith, cleared a, marked-above a high);
      first = λ t before run.
          first t before (λ i low high. view-IsFree i (omega arith) (run i low high));
    }
      where
        cleared :
            (a : ℕ)
            → taken.ram a ≡ (
                if within (heap_address + s * block_size) (n * block_size) a
                then 0
                else mark_entry_taken h.ram s n a)
        cleared a =
            memset-at (mark_entry_taken h.ram s n) (heap_address + s * block_size) 0
              (n * block_size) a

  alloc_pages-Allocated : (n : ℕ) → 0 < n → Allocated h bs n (alloc_pages h n).0 (alloc_pages h n).1
  unfolding alloc_pages find_free_pages
  alloc_pages-Allocated n pos = elim (Option-cases (find_loop h.ram n 0 0 h.table_size)) [
    | inl e ↦
        let none_found = rw e at (find_loop-first h.ram n h.table_size pos) in
        rw (e, alloc_pages, find_free_pages, Allocated)
          (
            refl,
            λ s fits run.
                none_found s (omega arith) (omega arith)
                  (λ i low high. view-IsFree i (omega arith) (run i low high)),
          )
    | inr (s, e) ↦
        let found = rw e at (find_loop-first h.ram n h.table_size pos) in
        rw (e, alloc_pages, find_free_pages, Allocated)
          (
            s,
            taken-Taken n pos s found.0 (omega arith) (λ t before. found.2 t (omega arith) before),
          )
  ]

  -- On a table that shows separate blocks, kzallocPage answers a request of at least one page
  -- with the first run of free entries that is long enough: they become a block of the table,
  -- the block's bytes are zero and no other byte of the heap changes. It answers null, and
  -- changes nothing, only if no run is long enough.
  pub kzalloc_page-Allocated :
      (size : ℕ)
      → 0 < pages_of size
      → Allocated h bs (pages_of size) (kzalloc_page h size).0 (kzalloc_page h size).1
  unfolding kzalloc_page
  kzalloc_page-Allocated size pos = alloc_pages-Allocated (pages_of size) pos
