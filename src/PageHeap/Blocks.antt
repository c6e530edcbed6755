-- ===== src/PageHeap/Blocks.antt =====
-- The list of blocks as free sees it: the block that begins at an entry, and the list without it.
use boba_os.Base.{
  ℕ, ◌+◌, ◌-◌, ◌≤◌, ◌<◌, ◌≡◌, refl, true, false, if◌then◌else◌, ◌==◌, [], ◌∷◌, arith, Bool-cases,
  inl, inr, ==→eq, ap,
}
use boba_os.Memory.Copy.{within, within-bounds, bounds-within}
use boba_os.PageHeap.{has_flag, flag_start}
use boba_os.PageHeap.Spec.{Blocks, block_byte, view, Separate, block_byte-start, starts}

-- The blocks without the one that begins at `s`.
abbrev pub remove : ℕ → Blocks → Blocks
remove s [] = []
remove s ((t, n) ∷ bs) = if t == s then bs else (t, n) ∷ remove s bs

-- The number of entries of the block that begins at `s`, 0 if there is none.
abbrev pub size_at : ℕ → Blocks → ℕ
size_at s [] = 0
size_at s ((t, n) ∷ bs) = if t == s then n else size_at s bs

pub block_byte-pos : (n off : ℕ) → 0 < block_byte n off
unfolding block_byte
block_byte-pos n off = ground arith

module _ (ts s : ℕ) where
  pub size_at-bounds :
      (bs : Blocks)
      → Separate ts bs
      → starts bs s ≡ true
      → (0 < size_at s bs) × (s + size_at s bs ≤ ts)
  unfolding starts
  size_at-bounds [] sep st = cc
  size_at-bounds ((t, n) ∷ bs) sep st = elim (Bool-cases (t == s)) [
    | inl e ↦ rw e (sep.0, omega (arith, ==→eq t s e, sep.1))
    | inr e ↦ rw e (size_at-bounds bs sep.3 (rw e at st))
  ]

  pub view-block :
      (bs : Blocks) (j : ℕ)
      → Separate ts bs
      → starts bs s ≡ true
      → j < size_at s bs
      → view bs (s + j) ≡ block_byte (size_at s bs) j
  unfolding view starts
  view-block [] j sep st b = absurd (omega arith)
  view-block ((t, n) ∷ bs) j sep st b = elim (Bool-cases (t == s)) [
    | inl e ↦
        let b' : j < n = rw e at b in
        rw (e, bounds-within t n (s + j) (omega (arith, ==→eq t s e)) (omega (arith, ==→eq t s e)))
          (ap (block_byte n) (omega (arith, ==→eq t s e)))
    | inr e ↦
        let rest = view-block bs j sep.3 (rw e at st) (rw e at b) in
        elim (Bool-cases (within t n (s + j))) [
          | inl w ↦ absurd (omega (arith, sep.2 (s + j) w, rest, block_byte-pos (size_at s bs) j))
          | inr w ↦ rw (w, e) rest
        ]
  ]

  -- A block's entries are those of no other.
  view_in :
      (bs : Blocks) (i : ℕ)
      → Separate ts bs
      → starts bs s ≡ true
      → within s (size_at s bs) i ≡ true
      → 0 < view bs i
  view_in bs i sep st w =
      let (low, high) = within-bounds s (size_at s bs) i w in
      let j : ℕ = i - s in
      let e : s + j ≡ i = omega arith in
      rw (← e, view-block bs j sep st (omega arith)) (block_byte-pos (size_at s bs) j)

  pub view-remove :
      (bs : Blocks) (i : ℕ)
      → Separate ts bs
      → starts bs s ≡ true
      → view (remove s bs) i ≡ (if within s (size_at s bs) i then 0 else view bs i)
  unfolding view starts
  view-remove [] i sep st = cc
  view-remove ((t, n) ∷ bs) i sep st = elim (Bool-cases (t == s)) [
    | inl e ↦ ground (arith, sep.2 i, ==→eq t s e)
    | inr e ↦
        let st' = rw e at st in
        rw e (ground (arith, sep.2 i, view-remove bs i sep.3 st', view_in bs i sep.3 st'))
  ]

  pub Separate-remove :
      (bs : Blocks) → Separate ts bs → starts bs s ≡ true → Separate ts (remove s bs)
  unfolding starts
  Separate-remove [] sep st = cc
  Separate-remove ((t, n) ∷ bs) sep st = elim (Bool-cases (t == s)) [
    | inl e ↦ rw e sep.3
    | inr e ↦
        let st' = rw e at st in
        rw e (
          sep.0,
          sep.1,
          λ i w. ground (arith, sep.2 i w, view-remove bs i sep.3 st'),
          Separate-remove bs sep.3 st',
        )
  ]

  -- No block begins at an entry of another.
  not_starts : (bs : Blocks) → Separate ts bs → view bs s ≡ 0 → starts bs s ≡ false
  not_starts bs sep e = elim (Bool-cases (starts bs s)) [
    | inr none_there ↦ none_there
    | inl st ↦
        let (pos, fits) = size_at-bounds bs sep st in
        absurd (
          omega (
            arith,
            e,
            view_in bs s sep st (bounds-within s (size_at s bs) s (omega arith) (omega arith)),
          ))
  ]

  -- The start flag of an entry says whether a block begins there.
  pub start_flag : (bs : Blocks) → Separate ts bs → has_flag (view bs s) flag_start ≡ starts bs s
  unfolding view starts
  start_flag [] sep = refl
  start_flag ((t, n) ∷ bs) sep = elim (Bool-cases (within t n s)) [
    | inl w ↦
        ground (
          arith,
          block_byte-start n (s - t),
          not_starts bs sep.3 (sep.2 s w),
          within-bounds t n s w,
        )
    | inr w ↦ ground (arith, start_flag bs sep.3, bounds-within t n s)
  ]
