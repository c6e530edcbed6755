-- ===== src/Paging/Regions.antt =====
-- The memory map of paging.c: readMemoryMap, reworkMemoryMap and getMemoryMapForAddress.
use mathlib.Core.Path.{subst}
use boba_os.Base.{
  ℕ, suc, ◌+◌, ◌≤◌, ◌<◌, ◌≡◌, refl, add64, Option, none, some, Bool, not, ◌&&◌, if◌then◌else◌, ltb,
  leb, ◌==◌, List, [], ◌∷◌, All, drop, length, arith, Bool-cases, inl, inr,
}

-- struct memoryMap
pub record MemoryMap : Type 0 where
  pub address : ℕ
  pub length : ℕ
  pub type : ℕ

abbrev pub size_1mb : ℕ
size_1mb = 0x100000

-- BOBAOS_MEMORY_MAP_MAX_ENTRIES
abbrev pub max_entries : ℕ
max_entries = 15

abbrev pub holds : MemoryMap → (address : ℕ) → Bool
holds m address = leb m.address address && ltb address (add64 m.address m.length)

unfoldable pub get_memory_map_for_address : List MemoryMap → (address : ℕ) → Option MemoryMap
get_memory_map_for_address [] address = none
get_memory_map_for_address (m ∷ ms) address =
    let rest = get_memory_map_for_address ms address in if holds m address then some m else rest

-- The number of the entries below 1 MiB that stand first.
unfoldable pub lower_entries : List MemoryMap → ℕ
lower_entries [] = 0
lower_entries (m ∷ ms) =
    let rest = lower_entries ms in
    if not (m.type == 0) && ltb m.address size_1mb then suc rest else 0

abbrev pub lower_memory : MemoryMap
lower_memory = record { address = 0; length = size_1mb; type = 1 }

-- The entries up to memoryMapLength. With no entry below 1 MiB the uint8_t counter goes from 0 to
-- 255, and memcpy reads behind the array: `none`. One entry more is copied than memoryMapLength
-- then counts.
unfoldable pub rework_memory_map : List MemoryMap → Option (List MemoryMap)
unfolding lower_entries
rework_memory_map ms =
    if lower_entries ms == 0 then none else some (lower_memory ∷ drop (lower_entries ms) ms)

-- The globals of paging.c.
pub record Regions : Type 0 where
  pub memory_map : List MemoryMap
  pub upper_memory_size : ℕ
  pub total_memory_size : ℕ

-- The sums of readMemoryMap, up to the first entry of type 0.
unfoldable pub read_loop : List MemoryMap → Regions
read_loop [] = record { memory_map = []; upper_memory_size = 0; total_memory_size = 0 }
read_loop (m ∷ ms) =
    let rest = read_loop ms in
    if m.type == 0
    then record { memory_map = []; upper_memory_size = 0; total_memory_size = 0 }
    else record {
      memory_map = m ∷ rest.memory_map;
      upper_memory_size =
          if leb size_1mb m.address
          then add64 rest.upper_memory_size m.length
          else rest.upper_memory_size;
      total_memory_size = add64 rest.total_memory_size m.length;
    }

-- `table` is what the boot loader left at 0xF000. More entries than the array has are stored
-- behind it: `none`.
unfoldable pub read_memory_map : (table : List MemoryMap) → Option Regions
unfolding read_loop rework_memory_map
read_memory_map table =
    let read = read_loop table in
    let reworked : Option Regions = elim (rework_memory_map read.memory_map) [
      | none ↦ none
      | some ms ↦ some (record read { memory_map = ms })
    ] in
    if ltb max_entries (length read.memory_map) then none else reworked

-- A region below 1 MiB ends there.
abbrev pub EndsBelow : MemoryMap → Type 0
EndsBelow m = m.address < size_1mb → m.address + m.length ≤ size_1mb

none-ne-some : {A : Type 0} {a : A} → ¬ (none ≡ some a)
none-ne-some h = cc

some-injective : {A : Type 0} {a b : A} → some a ≡ some b → a ≡ b
some-injective h = cc

above-drop :
    (ms : List MemoryMap) (a : ℕ)
    → All EndsBelow ms
    → size_1mb ≤ a
    → get_memory_map_for_address (drop (lower_entries ms) ms) a ≡ get_memory_map_for_address ms a
unfolding get_memory_map_for_address lower_entries
above-drop [] a h b = refl
above-drop (m ∷ ms) a h b = ground (arith, above-drop ms a h.1 b, h.0)

-- Where no region that begins below 1 MiB reaches over it, the reworked memory map answers every
-- address from 1 MiB on as the map that was read, and every address below with one region of 1 MiB.
pub get_memory_map_for_address-rework_memory_map :
    (ms ms' : List MemoryMap) (a : ℕ)
    → All EndsBelow ms
    → rework_memory_map ms ≡ some ms'
    → get_memory_map_for_address ms' a
      ≡ (if ltb a size_1mb then some lower_memory else get_memory_map_for_address ms a)
unfolding rework_memory_map get_memory_map_for_address
get_memory_map_for_address-rework_memory_map ms ms' a h e =
    elim (Bool-cases (lower_entries ms == 0)) [
      | inl all_above ↦ absurd (none-ne-some (rw all_above at e))
      | inr some_below ↦
          subst
            (λ z.
              get_memory_map_for_address z a
              ≡ (if ltb a size_1mb then some lower_memory else get_memory_map_for_address ms a))
            (some-injective (rw some_below at e)) (ground (arith, above-drop ms a h))
    ]
