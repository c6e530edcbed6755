-- ===== src/Memory.antt =====
-- kernel/memory/memory.c over a flat memory.
pub mod Copy
mod Tests
use boba_os.Base.{Ram, poke, ℕ, zero, suc, ◌+◌, if◌then◌else◌, ltb, ◌==◌}

-- The loops run on the rounds that are left.
memset_loop : Ram → ℕ → ℕ → ℕ → ℕ → Ram
memset_loop m addr value i zero = m
memset_loop m addr value i (suc k) = memset_loop (poke m (addr + i) value) addr value (i + 1) k

unfoldable pub memset : Ram → (addr value size : ℕ) → Ram
unfolding memset_loop
memset m addr value size = memset_loop m addr value 0 size

memcpy_loop : Ram → ℕ → ℕ → ℕ → ℕ → Ram
memcpy_loop m dest src i zero = m
memcpy_loop m dest src i (suc k) = memcpy_loop (poke m (dest + i) (m (src + i))) dest src (i + 1) k

unfoldable pub memcpy : Ram → (dest src size : ℕ) → Ram
unfolding memcpy_loop
memcpy m dest src size = memcpy_loop m dest src 0 size

-- int8_t -1, 0 and 1.
pub data Order : Type 0 where
  below same above : Order

memcmp_loop : Ram → ℕ → ℕ → ℕ → ℕ → Order
memcmp_loop m p q i zero = same
memcmp_loop m p q i (suc k) =
    let rest = memcmp_loop m p q (i + 1) k in
    if m (p + i) == m (q + i) then rest else if ltb (m (p + i)) (m (q + i)) then below else above

unfoldable pub memcmp : Ram → (ptr1 ptr2 size : ℕ) → Order
unfolding memcmp_loop
memcmp m p q size = memcmp_loop m p q 0 size
