-- ===== src/Memory/Copy.antt =====
-- What the loops of kernel/memory/memory.c leave in memory.
use boba_os.Base.{
  Ram, poke, ℕ, zero, suc, ◌+◌, ◌-◌, ◌≤◌, ◌<◌, ◌≡◌, ◌⊎◌, inl, inr, ◌&&◌, true, if◌then◌else◌, ltb,
  Bool, leb, arith, ap, lt-eq-gt, lt→ltb, le→ltb, eq→==, ne→==,
}
use Prim.Native.Nat.add
use boba_os.Memory.{
  memset_loop, memset, memcpy_loop, memcpy, memcmp_loop, memcmp, Order, same, below, above,
}

-- `a` lies among the `n` addresses from `p` on.
abbrev pub within : ℕ → ℕ → ℕ → Bool
within p n a = leb p a && ltb a (p + n)

pub within-bounds : (p n a : ℕ) → within p n a ≡ true → (p ≤ a) × (a < p + n)
within-bounds p n a h = (ground arith, ground arith)

pub bounds-within : (p n a : ℕ) → p ≤ a → a < p + n → within p n a ≡ true
bounds-within p n a h k = ground arith

memset_loop-at :
    (k : ℕ) (m : Ram) (addr v i a : ℕ)
    → memset_loop m addr v i k a ≡ (if within (addr + i) k a then v else m a)
unfolding memset_loop
memset_loop-at zero m addr v i a = ground arith
memset_loop-at (suc k) m addr v i a =
    ground (arith, memset_loop-at k (poke m (addr + i) v) addr v (i + 1) a)

-- `memset` stores the value at the `size` addresses from `addr` on, and nowhere else.
pub memset-at :
    (m : Ram) (addr v size a : ℕ) → memset m addr v size a ≡ (if within addr size a then v else m a)
unfolding memset
memset-at m addr v size a = ground (arith, memset_loop-at size m addr v 0 a)

memcpy_loop-at :
    (k : ℕ) (m : Ram) (dest src i a : ℕ)
    → (dest ≤ src) ⊎ (src + i + k ≤ dest + i)
    → memcpy_loop m dest src i k a ≡ (if within (dest + i) k a then m (src + (a - dest)) else m a)
unfolding memcpy_loop
memcpy_loop-at zero m dest src i a h = ground arith
memcpy_loop-at (suc k) m dest src i a h = ground (
  arith,
  memcpy_loop-at k (poke m (dest + i) (m (src + i))) dest src (i + 1) a (omega arith),
  ap m {x = src + (a - dest)} {y = src + i},
)

-- Where the target does not start inside the source, `memcpy` is a copy.
pub memcpy-at :
    (m : Ram) (dest src size a : ℕ)
    → (dest ≤ src) ⊎ (src + size ≤ dest)
    → memcpy m dest src size a ≡ (if within dest size a then m (src + (a - dest)) else m a)
unfolding memcpy
memcpy-at m dest src size a h = ground (arith, memcpy_loop-at size m dest src 0 a (omega arith))

-- The first `j` bytes at `p` and at `q` agree.
abbrev pub Agree : Ram → (p q j : ℕ) → Type 0
Agree m p q j = (i : ℕ) → i < j → m (p + i) ≡ m (q + i)

-- What each answer of `memcmp` says: the order of the first bytes that differ, if any do.
abbrev pub Compares : Ram → (p q size : ℕ) → Order → Type 0
Compares m p q size same = Agree m p q size
Compares m p q size below = (j : ℕ) × (j < size) × Agree m p q j × (m (p + j) < m (q + j))
Compares m p q size above = (j : ℕ) × (j < size) × Agree m p q j × (m (q + j) < m (p + j))

Agree-suc : (m : Ram) (p q i : ℕ) → Agree m p q i → m (p + i) ≡ m (q + i) → Agree m p q (i + 1)
Agree-suc m p q i before e j h =
    ground (arith, before j, ap m {x = p + j} {y = p + i}, ap m {x = q + j} {y = q + i})

add-suc : (i k : ℕ) → i + suc k ≡ i + 1 + k
add-suc i k = omega arith

memcmp_loop-Compares :
    (k : ℕ) (m : Ram) (p q i : ℕ) → Agree m p q i → Compares m p q (i + k) (memcmp_loop m p q i k)
unfolding memcmp_loop
memcmp_loop-Compares zero m p q i before = λ j h. before j (omega arith)
memcmp_loop-Compares (suc k) m p q i before = elim (lt-eq-gt (m (p + i)) (m (q + i))) [
  | inl lt ↦
      rw (ne→== (m (p + i)) (m (q + i)) (omega arith), lt→ltb (m (p + i)) (m (q + i)) lt)
        (i, omega arith, before, lt)
  | inr (inl e) ↦
      rw (eq→== (m (p + i)) (m (q + i)) e, add-suc i k)
        (memcmp_loop-Compares k m p q (i + 1) (Agree-suc m p q i before e))
  | inr (inr gt) ↦
      rw (ne→== (m (p + i)) (m (q + i)) (omega arith), le→ltb (m (p + i)) (m (q + i)) (omega arith))
        (i, omega arith, before, gt)
]

-- `memcmp` orders two areas by their first bytes that differ, and finds them equal otherwise.
pub memcmp-Compares : (m : Ram) (p q size : ℕ) → Compares m p q size (memcmp m p q size)
unfolding memcmp
memcmp-Compares m p q size =
    rw (add.zero size) at (memcmp_loop-Compares size m p q 0 (λ j h. absurd (omega arith)))
