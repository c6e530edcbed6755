-- ===== src/PageHeap/Spec.antt =====
-- The heap's table as a list of blocks: what kheap_page.c keeps in its flag bytes.
use boba_os.Base.{
  ℕ, bit_and, ◌+◌, ◌-◌, ◌≤◌, ◌<◌, ◌≡◌, Bool, true, false, if◌then◌else◌, ◌==◌, List, [], ◌∷◌, arith,
}
use boba_os.Memory.Copy.{within}
use boba_os.PageHeap.{
  PageHeap, heap_address, get_table_entry, has_flag, flag_locked, flag_start, flag_next,
}

-- A block by its first entry and its number of entries.
abbrev pub Blocks : Type 0
Blocks = List (ℕ × ℕ)

-- The flags of entry number `off` of a block of `n` entries.
unfoldable pub block_byte : (n off : ℕ) → ℕ
block_byte n off =
    if off == 0 then (if 1 == n then 0x41 else 0xC1) else (if off + 1 == n then 0x01 else 0x81)

-- The flags of entry `i`.
unfoldable pub view : Blocks → ℕ → ℕ
view [] i = 0
view ((s, n) ∷ bs) i = if within s n i then block_byte n (i - s) else view bs i

-- The blocks lie in the table, none is empty and no two of them share an entry.
abbrev pub Separate : (table_size : ℕ) → Blocks → Type 0
Separate ts [] = Unit {0}
Separate ts ((s, n) ∷ bs) =
    (0 < n) × (s + n ≤ ts) × ((i : ℕ) → within s n i ≡ true → view bs i ≡ 0) × Separate ts bs

-- The table holds the flags of the blocks `bs`, and lies below the heap.
pub record Renders (h : PageHeap) (bs : Blocks) : Type 0 where
  pub shown : (i : ℕ) → i < h.table_size → h.ram (get_table_entry i) ≡ view bs i
  pub apart : Separate h.table_size bs
  pub small : h.table_size ≤ heap_address

pub block_byte-locked : (n off : ℕ) → has_flag (block_byte n off) flag_locked ≡ true
unfolding block_byte
block_byte-locked n off = ground arith

pub block_byte-start : (n off : ℕ) → has_flag (block_byte n off) flag_start ≡ (off == 0)
unfolding block_byte
block_byte-start n off = ground arith

pub block_byte-next :
    (n off : ℕ) → has_flag (block_byte n off) flag_next ≡ (if off + 1 == n then false else true)
unfolding block_byte
block_byte-next n off = ground arith

pub block_byte-clear : (n off : ℕ) → bit_and (block_byte n off) 0 ≡ 0
unfolding block_byte
block_byte-clear n off = ground arith

-- An entry that is not locked is zero.
pub view_free : (bs : Blocks) (i : ℕ) → has_flag (view bs i) flag_locked ≡ false → view bs i ≡ 0
unfolding view
view_free [] i h = ground arith
view_free ((s, n) ∷ bs) i h = ground (arith, view_free bs i, block_byte-locked n (i - s))

-- What entry `i` is to the list: the first of a block, or not.
unfoldable pub starts : Blocks → ℕ → Bool
starts [] i = false
starts ((s, n) ∷ bs) i = if s == i then true else starts bs i
