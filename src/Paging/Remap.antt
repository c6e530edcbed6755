-- ===== src/Paging/Remap.antt =====
-- The remap functions and createKernelTable of paging.c.
use boba_os.Base.{
  ℕ, zero, suc, ◌+◌, ◌/◌, ◌≡◌, refl, add64, mul64, Option, none, some, Bool, false, if◌then◌else◌,
  ◌==◌, List, [], ◌∷◌, Result, ok, err, Errno,
}
use boba_os.Paging.{
  cleared, Paging, size_4kb, map_loop, after_page, map_or_create_range, virtual_to_physical,
  down_to_page, up_to_page,
}
use boba_os.Paging.Regions.{MemoryMap}

-- A status is 0 or a negative code, so `> 0` never holds.
abbrev pub positive : Result (Unit {0}) → Bool
positive (ok u) = false
positive (err e) = false

module _ (alloc : ℕ → Option ℕ) where
  unfoldable pub remap_physical_to_virtual :
      Paging → (physical virt table : ℕ) → Option (Result (Unit {0}) × Paging)
  remap_physical_to_virtual t physical virt table =
      map_or_create_range alloc t table physical virt size_4kb

  unfoldable pub remap_physical_to_virtual_range :
      Paging → (physical virt size table : ℕ) → Option (Result (Unit {0}) × Paging)
  remap_physical_to_virtual_range t physical virt size table =
      map_or_create_range alloc t table physical virt (up_to_page size)

  unfoldable pub remap_virtual_to_virtual :
      Paging → (to from table : ℕ) → Option (Result (Unit {0}) × Paging)
  remap_virtual_to_virtual t to from table =
      map_or_create_range alloc t table (down_to_page (virtual_to_physical t.words from table))
        (down_to_page to) size_4kb

  -- The rounds from `i` on. `none` means that the fuel of a mapping ran out.
  pub remap_loop : Paging → (to from table i rounds : ℕ) → Option (Result (Unit {0}) × Paging)
  unfolding remap_virtual_to_virtual
  remap_loop t to from table i zero = some (ok tt, t)
  remap_loop t to from table i (suc k) =
      elim (remap_virtual_to_virtual t (add64 to (mul64 i size_4kb)) (add64 from (mul64 i size_4kb))
        table) [
          | none ↦ none
          | some (status, t') ↦
              let rest = remap_loop t' to from table (i + 1) k in
              if positive status then some (err Errno.enmem, t') else rest
        ]

  unfoldable pub remap_virtual_to_virtual_range :
      Paging → (to from size table : ℕ) → Option (Result (Unit {0}) × Paging)
  unfolding remap_loop
  remap_virtual_to_virtual_range t to from size table =
      remap_loop t to from table 0 (up_to_page size / size_4kb)

  -- The entries of the memory map from one on: NULL is `none`.
  pub kernel_loop :
      Paging
      → (pml4_table virtual_start size_mapped : ℕ) → List MemoryMap
      → Option (Option ℕ × Paging)
  kernel_loop t pml4_table virtual_start size_mapped [] = some (some pml4_table, t)
  kernel_loop t pml4_table virtual_start size_mapped (m ∷ ms) =
      let range_size = down_to_page m.length in
      let skipped = kernel_loop t pml4_table virtual_start size_mapped ms in
      let mapped : Option (Option ℕ × Paging) =
        elim (map_or_create_range alloc t pml4_table (down_to_page m.address)
          (add64 virtual_start size_mapped) range_size) [
            | none ↦ none
            | some (ok u, t') ↦
                kernel_loop t' pml4_table virtual_start (add64 size_mapped range_size) ms
            | some (err e, t') ↦ some (none, t')
          ] in
      if m.type == 1 then mapped else skipped

  unfoldable pub create_kernel_table :
      Paging → (virtual_start : ℕ) → List MemoryMap → Option (Option ℕ × Paging)
  unfolding kernel_loop
  create_kernel_table t virtual_start ms = elim (alloc t.calls) [
    | none ↦ some (none, record t { calls = t.calls + 1 })
    | some page ↦
        kernel_loop (record { words = cleared t.words page; calls = t.calls + 1 }) page
          virtual_start 0 ms
  ]

  after_page-some :
      (r : Result (Unit {0})) (t : Paging) (rest : Option (Result (Unit {0}) × Paging))
      → (x : Result (Unit {0})) × (t' : Paging) × (after_page alloc r t false rest ≡ some (x, t'))
  unfolding after_page
  after_page-some (ok u) t rest = (ok u, t, refl)
  after_page-some (err e) t rest = (err e, t, refl)

  -- One page is mapped in one round.
  one_page :
      (t : Paging) (to from table : ℕ)
      → (r : Result (Unit {0})) × (t' : Paging) × (remap_virtual_to_virtual t to from table
          ≡ some (r, t'))
  unfolding remap_virtual_to_virtual map_or_create_range map_loop
  one_page t to from table = after_page-some _ _ _

  if-positive :
      (r : Result (Unit {0})) (a : Option (Result (Unit {0}) × Paging))
      {b c : Option (Result (Unit {0}) × Paging)}
      → b ≡ c
      → (if positive r then a else b) ≡ c
  if-positive (ok u) a e = e
  if-positive (err x) a e = e

  remap_loop-ok :
      (k i : ℕ) (t : Paging) (to from table : ℕ)
      → (t' : Paging) × (remap_loop t to from table i k ≡ some (ok tt, t'))
  unfolding remap_loop
  remap_loop-ok zero i t to from table = (t, refl)
  remap_loop-ok (suc k) i t to from table =
      let (r, t', run) =
        one_page t (add64 to (mul64 i size_4kb)) (add64 from (mul64 i size_4kb)) table in
      let (t'', rest) = remap_loop-ok k (i + 1) t' to from table in
      (t'', rw (remap_loop, run) (if-positive r _ rest))

  -- remapVirtualToVirtualRange comes to an end and reports success whatever kzalloc gives: it
  -- tests the status of each page for a positive value.
  pub remap_virtual_to_virtual_range-ok :
      (t : Paging) (to from size table : ℕ)
      → (t' : Paging) × (remap_virtual_to_virtual_range t to from size table ≡ some (ok tt, t'))
  unfolding remap_virtual_to_virtual_range
  remap_virtual_to_virtual_range-ok t to from size table =
      remap_loop-ok (up_to_page size / size_4kb) 0 t to from table
