-- ===== src/BuddyHeap/Sizes.antt =====
-- The sizes of blocks, and the pairs of blocks.
use native.Mathlib.Nat
use boba_os.Base.{
  ℕ, zero, suc, ◌+◌, ◌-◌, ◌*◌, ◌/◌, ◌%◌, ◌^◌, ◌≤◌, ◌<◌, ◌≡◌, ◌⊎◌, refl, sym, ap, ◌∙◌, Ram, none,
  some, false, ◌==◌, ltb, ok, arith, Bool-cases, inl, inr, eq→==, ne→==, ==→eq, ==→ne, Errno,
  ok-injective, check-ok,
}
use boba_os.BuddyHeap.{
  Buddy, next_lvl_loop, to_next_lvl, find_lvl_loop, find_lvl_for_block, first_of,
  get_higher_table_entry, get_lower_table_entry, get_buddy, kheap_init_buddy, smallest_page,
  biggest_page, read_level, detect_max_lvl, detect_loop,
}
use boba_os.BuddyHeap.Calls.{kzalloc_buddy}

-- A power of two that is the least one above `m`.
abbrev Above : (m k : ℕ) → Type 0
Above m k = (m < 2 ^ k) × ((2 ^ k ≤ 2 * m) ⊎ (k ≡ 0))

Above-half : (m k : ℕ) → 0 < m → Above (m / 2) k → Above m (suc k)
Above-half m k some_m (above, least) =
    let double : 2 ^ suc k ≡ 2 ^ k * 2 = Nat.pow-suc 2 k in
    elim least [
      | inl le ↦ (omega arith, inl (omega arith))
      | inr start ↦ let one : 2 ^ k ≡ 1 = ap (λ j. 2 ^ j) start in (omega arith, inl (omega arith))
    ]

twice_power : (ret k : ℕ) → ret * 2 * 2 ^ k ≡ ret * 2 ^ suc k
twice_power ret k = Nat.mul_assoc ret 2 (2 ^ k) ∙ ap (λ x. ret * x) (sym (Nat.pow-succ' 2 k))

next_lvl_loop-Above :
    (rounds m ret : ℕ)
    → m < 2 ^ rounds
    → ret * m < 2 ^ 63
    → (k : ℕ) × (next_lvl_loop rounds m ret ≡ ret * 2 ^ k) × Above m k
unfolding next_lvl_loop
next_lvl_loop-Above zero m ret small fits = (0, omega arith, (omega arith, inr refl))
next_lvl_loop-Above (suc rounds) m ret small fits = elim (Bool-cases (m == 0)) [
  | inl nothing ↦
      let e = ==→eq m 0 nothing in (0, rw nothing (omega arith), (omega arith, inr refl))
  | inr more ↦
      let ne = ==→ne m 0 more in
      let double : 2 ^ suc rounds ≡ 2 ^ rounds * 2 = Nat.pow-suc 2 rounds in
      let half : ret * (2 * (m / 2)) ≤ ret * m = Nat.mul-le-mul_left ret (omega arith) in
      let once : ret * 1 ≤ ret * m = Nat.mul-le-mul_left ret (omega (arith, ne)) in
      let ret_small : ret < 2 ^ 63 = omega arith in
      let word : ret * 2 % 2 ^ 64 ≡ ret * 2 = omega arith in
      let (k, e, above) =
        next_lvl_loop-Above rounds (m / 2) (ret * 2) (omega arith) (grind arith) in
      (suc k, rw (more, word) (e ∙ twice_power ret k), Above-half m k (omega (arith, ne)) above)
]

-- toNextLvl of a size from 1 to 2^63 rounds it up to a power of two: to the least one, since half
-- of it is too small, or to 1.
pub to_next_lvl-Above :
    (n : ℕ) → 0 < n → n ≤ 2 ^ 63 → (k : ℕ) × (to_next_lvl n ≡ 2 ^ k) × (n ≤ 2 ^ k) × (2 ^ k < 2 * n)
unfolding to_next_lvl
to_next_lvl-Above n some_size small =
    let (k, e, (above, least)) = next_lvl_loop-Above 64 (n - 1) 1 (omega arith) (omega arith) in
    let below : 2 ^ k < 2 * n = elim least [
      | inl le ↦ omega arith
      | inr start ↦ let one : 2 ^ k ≡ 1 = ap (λ j. 2 ^ j) start in omega arith
    ] in
    (k, rw (ne→== n 0 (omega arith)) (e ∙ omega arith), omega arith, below)

-- No level has blocks of less than a page's size.
find_lvl_loop-none :
    (h : Buddy) (block k : ℕ)
    → ((l : ℕ) → l < k → block < (h.levels l).block_size)
    → find_lvl_loop h block k ≡ none
unfolding find_lvl_loop
find_lvl_loop-none h block zero larger = refl
find_lvl_loop-none h block (suc k) larger =
    rw (ne→== (h.levels k).block_size block (omega (arith, larger k (omega arith))))
      (find_lvl_loop-none h block k (λ l below. larger l (omega arith)))

read_level-sizes :
    (heap_size l : ℕ) → l < 8 → smallest_page ≤ (read_level heap_size biggest_page l).block_size
unfolding read_level
read_level-sizes heap_size zero below = omega arith
read_level-sizes heap_size (suc zero) below = omega arith
read_level-sizes heap_size (suc (suc zero)) below = omega arith
read_level-sizes heap_size (suc (suc (suc zero))) below = omega arith
read_level-sizes heap_size (suc (suc (suc (suc zero)))) below = omega arith
read_level-sizes heap_size (suc (suc (suc (suc (suc zero))))) below = omega arith
read_level-sizes heap_size (suc (suc (suc (suc (suc (suc zero)))))) below = omega arith
read_level-sizes heap_size (suc (suc (suc (suc (suc (suc (suc zero))))))) below = omega arith
read_level-sizes heap_size (suc (suc (suc (suc (suc (suc (suc (suc l)))))))) below =
    absurd (omega arith)

-- A heap whose levels have blocks of at least 1024 bytes has none for a size of at most 512.
kzalloc_buddy-small :
    (h : Buddy) (size : ℕ)
    → ((l : ℕ) → l < h.max_lvl → smallest_page ≤ (h.levels l).block_size)
    → 0 < size
    → size ≤ 512
    → kzalloc_buddy h size ≡ some (none, h)
unfolding kzalloc_buddy find_lvl_for_block
kzalloc_buddy-small h size larger some_size small =
    let (k, e, enough, below) = to_next_lvl-Above size some_size (omega arith) in
    let no_level : find_lvl_for_block h (to_next_lvl size) ≡ none =
      find_lvl_loop-none h (to_next_lvl size) h.max_lvl
        (λ l inside. omega (arith, larger l inside)) in
    elim (Bool-cases (ltb h.max_page size)) [
      | inl over ↦ rw (ne→== size 0 (omega arith), over) refl
      | inr fits ↦ rw (kzalloc_buddy, ne→== size 0 (omega arith), fits, no_level) refl
    ]

-- A heap that kheapInitBuddy has set up gives no block for a size from 1 to 512: it answers NULL
-- and stays as it is, however much of it is free.
pub kzalloc_buddy-init :
    (ram : Ram) (heap_size lower_memory : ℕ) {h : Buddy} (size : ℕ)
    → kheap_init_buddy ram heap_size lower_memory ≡ ok h
    → 0 < size
    → size ≤ 512
    → kzalloc_buddy h size ≡ some (none, h)
unfolding kheap_init_buddy detect_max_lvl detect_loop read_level
kzalloc_buddy-init ram heap_size lower_memory {h} size e some_size small =
    let (room, e2) = check-ok Errno.enmem _ _ e in
    let same = ok-injective e2 in
    let eight : h.max_lvl ≡ 8 = sym (ap (λ b. b.max_lvl) same) in
    let levels : h.levels ≡ read_level (to_next_lvl heap_size) biggest_page =
      sym (ap (λ b. b.levels) same) in
    kzalloc_buddy-small h size (rw (eight, levels) (read_level-sizes (to_next_lvl heap_size)))
      some_size small

-- Where an entry is not of the last level, both halves that getHigherTableEntryAddressFromBlock
-- leads to, as entries of the next level, lead back to it by getLowerTableEntryAddressFromBlock.
pub get_lower_table_entry-get_higher_table_entry :
    (h : Buddy) (g u : ℕ)
    → first_of h (h.entries g).lvl ≤ g
    → get_higher_table_entry h g ≡ some u
    → (h.entries u).lvl ≡ (h.entries g).lvl + 1
    → (h.entries (u + 1)).lvl ≡ (h.entries g).lvl + 1
    → (get_lower_table_entry h u ≡ some g)
      × (get_lower_table_entry h (u + 1) ≡ some g)
      × (get_buddy h u ≡ u + 1)
      × (get_buddy h (u + 1) ≡ u)
unfolding get_higher_table_entry get_lower_table_entry get_buddy
get_lower_table_entry-get_higher_table_entry h g u inside e lvl_u lvl_v =
    let last : ((h.entries g).lvl + 1 == h.max_lvl) ≡ false = ground arith in
    let at : first_of h ((h.entries g).lvl + 1) + 2 * (g - first_of h (h.entries g).lvl) ≡ u =
      ground arith in
    let back : (h.entries g).lvl + 1 - 1 ≡ (h.entries g).lvl = omega arith in
    let no_root : ((h.entries g).lvl + 1 == 0) ≡ false = ne→== _ 0 (omega arith) in
    (
      rw (lvl_u, no_root, back) (ap some (omega arith)),
      rw (lvl_v, no_root, back) (ap some (omega arith)),
      rw (lvl_u, eq→== ((u - first_of h ((h.entries g).lvl + 1)) % 2) 0 (omega arith)) refl,
      rw (lvl_v, ne→== ((u + 1 - first_of h ((h.entries g).lvl + 1)) % 2) 0 (omega arith))
          (omega arith),
    )
