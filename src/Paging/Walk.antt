-- ===== src/Paging/Walk.antt =====
-- The tables of paging.c as a tree: the table that a path of indexes leads to, and the invariant
-- under which a write to one table leaves the others alone.
use boba_os.Base.{
  ℕ, ◌%◌, ◌^◌, ◌≤◌, ◌<◌, ◌≡◌, ◌≢◌, Ram, Option, some, if◌then◌else◌, ◌==◌, List, [], ◌∷◌, All,
  length, arith,
}
use boba_os.Paging.{Paging, slot, no_flags, pd_index, pdp_index, pml4_index}

-- The table at the end of a path, or 0. A path has its last index first.
unfoldable pub walk : Ram → (root : ℕ) → List ℕ → ℕ
walk w root [] = root
walk w root (i ∷ is) =
    let table = walk w root is in if table == 0 then 0 else no_flags (w (slot table i))

-- The entry at index `i` of the table at the end of a path, or 0.
unfoldable pub word : Ram → (root : ℕ) → List ℕ → (i : ℕ) → ℕ
word w root is i = let table = walk w root is in if table == 0 then 0 else w (slot table i)

-- A path of at most three indexes leads to a table.
abbrev pub IsPath : List ℕ → Type 0
IsPath is = All (λ i. i < 512) is × (length is ≤ 3)

-- The entry of an address: the path to its last table.
abbrev pub page_path : ℕ → List ℕ
page_path virt = pd_index virt ∷ pdp_index virt ∷ pml4_index virt ∷ []

-- The pages that kzalloc gives: aligned, below 2^48, and never the same one twice.
pub record Pages (alloc : ℕ → Option ℕ) : Type 0 where
  pub aligned : (n p : ℕ) → alloc n ≡ some p → p % 4096 ≡ 0
  pub bounds : (n p : ℕ) → alloc n ≡ some p → (0 < p) × (p < 2 ^ 48)
  pub apart : (n k p : ℕ) → alloc n ≡ some p → alloc k ≡ some p → n ≡ k

-- The paths from `root` lead to tables of their own, and kzalloc still has to give other pages.
pub record Tree (alloc : ℕ → Option ℕ) (root : ℕ) (t : Paging) : Type 0 where
  pub root_aligned : root % 4096 ≡ 0
  pub root_there : 0 < root
  pub distinct :
      (is js : List ℕ)
      → IsPath is
      → IsPath js
      → walk t.words root is ≢ 0
      → walk t.words root is ≡ walk t.words root js
      → is ≡ js
  -- An entry that is not 0 points to a table.
  pub pointers :
      (i : ℕ) (is : List ℕ)
      → IsPath (i ∷ is)
      → word t.words root is i ≢ 0
      → walk t.words root (i ∷ is) ≢ 0
  pub fresh :
      (n p : ℕ) (is : List ℕ)
      → t.calls ≤ n
      → alloc n ≡ some p
      → IsPath is
      → walk t.words root is ≢ p

pub slot-injective :
    (t i t' i' : ℕ)
    → t % 4096 ≡ 0
    → t' % 4096 ≡ 0
    → i < 512
    → i' < 512
    → slot t i ≡ slot t' i'
    → (t ≡ t') × (i ≡ i')
slot-injective t i t' i' a a' b b' e = (omega arith, omega arith)

pub walk-aligned :
    (w : Ram) (root : ℕ) → root % 4096 ≡ 0 → (is : List ℕ) → walk w root is % 4096 ≡ 0
unfolding walk
walk-aligned w root a [] = a
walk-aligned w root a (i ∷ is) = ground arith

pub IsPath-tail : (i : ℕ) (is : List ℕ) → IsPath (i ∷ is) → IsPath is
IsPath-tail i is h = (h.0.1, omega arith)

pub walk-step :
    (w : Ram) (root i : ℕ) (is : List ℕ)
    → walk w root is ≢ 0
    → walk w root (i ∷ is) ≡ no_flags (w (slot (walk w root is) i))
unfolding walk
walk-step w root i is there = ground arith

pub word-there :
    (w : Ram) (root i : ℕ) (is : List ℕ)
    → walk w root is ≢ 0
    → word w root is i ≡ w (slot (walk w root is) i)
unfolding word
word-there w root i is there = ground arith
