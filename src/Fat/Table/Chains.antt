-- ===== src/Fat/Table/Chains.antt =====
-- Chains of clusters in the allocation table, and unlinkFatChain.
use boba_os.Base.{
  ℕ, suc, ◌≤◌, ◌<◌, ◌≡◌, refl, sym, ap, ◌∙◌, Bool, true, false, ◌==◌, ◌||◌, List, [], ◌∷◌, length,
  arith, Bool-cases, inl, inr, eq→==, ==→eq,
}
use boba_os.Fat.{is_end}

-- Is the number in the list?
abbrev pub member : ℕ → List ℕ → Bool
member x [] = false
member x (y ∷ ys) = (x == y) || member x ys

-- From the entry value `e` on, the table leads through exactly these clusters, all below `n`, and
-- then to an end of chain.
abbrev pub Walk : (fat : ℕ → ℕ) (n e : ℕ) → List ℕ → Type 0
Walk fat n e [] = is_end e ≡ true
Walk fat n e (c ∷ cs) = (e ≡ c) × (is_end c ≡ false) × (c < n) × Walk fat n (fat c) cs

module _ (fat : ℕ → ℕ) (n : ℕ) where
  Walk-unique : (e : ℕ) (xs ys : List ℕ) → Walk fat n e xs → Walk fat n e ys → length xs ≡ length ys
  Walk-unique e [] [] a b = refl
  Walk-unique e [] (y ∷ ys) a b = cc
  Walk-unique e (x ∷ xs) [] a b = cc
  Walk-unique e (x ∷ xs) (y ∷ ys) a b =
      ap suc (Walk-unique (fat x) xs ys a.3 (rw (sym b.0 ∙ a.0) at b.3))

  Walk-suffix :
      (x e : ℕ) (cs : List ℕ)
      → Walk fat n e cs
      → member x cs ≡ true
      → (ys : List ℕ) × Walk fat n x ys × (length ys ≤ length cs)
  Walk-suffix x e [] a m = cc
  Walk-suffix x e (c ∷ cs) a m = elim (Bool-cases (x == c)) [
    | inl here ↦ (c ∷ cs, (==→eq x c here, a.1, a.2, a.3), omega arith)
    | inr there ↦
        let (ys, b, le) = Walk-suffix x (fat c) cs a.3 (rw there at m) in (ys, b, omega arith)
  ]

  -- A walk that ends never comes back to a cluster.
  pub Walk-fresh :
      (c : ℕ) (cs : List ℕ) → Walk fat n (fat c) cs → is_end c ≡ false → c < n → member c cs ≡ false
  Walk-fresh c cs a live inside = elim (Bool-cases (member c cs)) [
    | inr fresh ↦ fresh
    | inl back ↦
        let (ys, b, le) = Walk-suffix c (fat c) cs a back in
        absurd (omega (arith, Walk-unique c (c ∷ cs) ys (refl, live, inside, a) b))
  ]

-- A walk depends on the entries of its clusters alone.
pub Walk-same :
    (f g : ℕ → ℕ) (n e : ℕ) (cs : List ℕ)
    → ((x : ℕ) → x < n → member x cs ≡ true → g x ≡ f x)
    → Walk f n e cs
    → Walk g n e cs
Walk-same f g n e [] same a = a
Walk-same f g n e (c ∷ cs) same a = (
  a.0,
  a.1,
  a.2,
  rw (same c a.2 (rw (eq→== c c refl) refl))
      (Walk-same f g n (f c) cs (λ x inside m. same x inside (ground arith)) a.3),
)
