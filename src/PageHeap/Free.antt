-- ===== src/PageHeap/Free.antt =====
-- kzfreePage against the list of blocks.
use boba_os.Base.{
  ℕ, zero, suc, ◌+◌, ◌-◌, ◌*◌, ◌≤◌, ◌<◌, ◌≡◌, ◌≢◌, Ram, poke, true, false, if◌then◌else◌, some,
  arith, ◌∙◌, eq→==, ne→==, ok, err, Errno,
}
use boba_os.Memory.Copy.{within}
use boba_os.PageHeap.{
  PageHeap, block_size, heap_address, get_table_entry, has_flag, flag_start, free_loop,
  check_alignment, free_allocated_memory, address_to_table_index, kzfree_page,
}
use boba_os.PageHeap.Spec.{Blocks, block_byte, Renders, starts, block_byte-next, block_byte-clear}
use boba_os.PageHeap.Blocks.{
  remove, size_at, size_at-bounds, view-block, view-remove, Separate-remove, start_flag,
}

-- One round of the loop: the entry is cleared, and its flag says whether another follows.
module _ (m : Ram) (s n c fuel : ℕ) (shown : m (get_table_entry (s + c)) ≡ block_byte n c) where
  free_loop-last :
      c + 1 ≡ n → free_loop m s c (suc fuel) ≡ some (poke m (get_table_entry (s + c)) 0)
  unfolding free_loop
  free_loop-last e = rw (shown, block_byte-clear n c, block_byte-next n c, eq→== (c + 1) n e)

  free_loop-next :
      c + 1 ≢ n
      → free_loop m s c (suc fuel) ≡ free_loop (poke m (get_table_entry (s + c)) 0) s (c + 1) fuel
  unfolding free_loop
  free_loop-next e = rw (shown, block_byte-clear n c, block_byte-next n c, ne→== (c + 1) n e)

-- What the loop leaves from entry `c` of a block of `n` entries on.
abbrev pub Cleared : Ram → (s c k : ℕ) → Ram → Type 0
Cleared m s c k m' = (a : ℕ) → m' a ≡ (if within (get_table_entry (s + c)) k a then 0 else m a)

free_loop-Cleared :
    (k : ℕ) (m : Ram) (s n c fuel : ℕ)
    → c + suc k ≡ n
    → k < fuel
    → ((j : ℕ) → c ≤ j → j < n → m (get_table_entry (s + j)) ≡ block_byte n j)
    → (m' : Ram) × (free_loop m s c fuel ≡ some m') × Cleared m s c (suc k) m'
free_loop-Cleared k m s n c zero e f shown = absurd (omega arith)
free_loop-Cleared zero m s n c (suc fuel) e f shown = (
  poke m (get_table_entry (s + c)) 0,
  free_loop-last m s n c fuel (shown c (omega arith) (omega arith)) (omega arith),
  λ a. ground arith,
)
free_loop-Cleared (suc k) m s n c (suc fuel) e f shown =
    let (m', run, cleared) =
      free_loop-Cleared k (poke m (get_table_entry (s + c)) 0) s n (c + 1) fuel (omega arith)
        (omega arith) (λ j low high. ground (arith, shown j)) in
    (
      m',
      free_loop-next m s n c fuel (shown c (omega arith) (omega arith)) (omega arith) ∙ run,
      λ a. ground (arith, cleared a),
    )

-- The address of the block that begins at entry `s`.
abbrev pub block_address : ℕ → ℕ
block_address s = heap_address + s * block_size

module _ (h : PageHeap) (bs : Blocks) (r : Renders h bs) (s : ℕ) (b : s < h.table_size) where
  index-block : address_to_table_index h (block_address s) ≡ s
  unfolding address_to_table_index
  index-block = ground (arith, r.small)

  aligned-block : check_alignment (block_address s) ≡ true
  unfolding check_alignment
  aligned-block = ground arith

  start-shown : has_flag (h.ram (get_table_entry s)) flag_start ≡ starts bs s
  start-shown = rw (r.shown s b) (start_flag h.table_size s bs r.apart)

  -- On a table that shows separate blocks, a pointer to the first byte of an entry at which no
  -- block begins is refused with -EIARG: so it goes inside a block, and for a block that was freed
  -- before.
  pub kzfree_page-rejects :
      starts bs s ≡ false → kzfree_page h (block_address s) ≡ some (err Errno.eiarg)
  unfolding kzfree_page
  kzfree_page-rejects no_block = rw (aligned-block, index-block, start-shown, no_block)

  -- The heap after the block at entry `s` was given back.
  pub record Freed (h' : PageHeap) : Type 0 where
    pub done : kzfree_page h (block_address s) ≡ some (ok h')
    pub renders : Renders h' (remove s bs)
    pub others : (a : ℕ) → heap_address ≤ a → h'.ram a ≡ h.ram a

  module _ (st : starts bs s ≡ true) where
    abbrev n : ℕ
    n = size_at s bs

    bounds : (0 < n) × (s + n ≤ h.table_size)
    bounds = size_at-bounds h.table_size s bs r.apart st

    loop_run :
        (m' : Ram) × (free_loop h.ram s 0 h.table_size ≡ some m')
        × Cleared h.ram s 0 (suc (n - 1)) m'
    loop_run =
        free_loop-Cleared (n - 1) h.ram s n 0 h.table_size (omega (arith, bounds))
          (omega (arith, bounds))
          (λ j low high.
            r.shown (s + j) (omega (arith, bounds))
            ∙ view-block h.table_size s bs j r.apart st high)

    abbrev freed : PageHeap
    freed = record h { ram = loop_run.0 }

    freed-at : (a : ℕ) → freed.ram a ≡ (if within s n a then 0 else h.ram a)
    freed-at a = ground (arith, loop_run.2 a, bounds)

    -- On a table that shows separate blocks, the pointer to the first byte of a block of the table
    -- is freed: the table shows the other blocks, and the bytes of the heap stay.
    pub kzfree_page-Freed : (h' : PageHeap) × Freed h'
    unfolding kzfree_page free_allocated_memory
    kzfree_page-Freed = (
      freed,
      record {
        done = rw (aligned-block, index-block, start-shown, st, loop_run.1);
        renders = record {
          shown = λ i b'. ground (
            arith,
            freed-at (get_table_entry i),
            r.shown i b',
            view-remove h.table_size s bs i r.apart st,
          );
          apart = Separate-remove h.table_size s bs r.apart st;
          small = r.small;
        };
        others = λ a high. ground (arith, freed-at a, bounds, r.small);
      },
    )
