-- ===== src/Fat/Contents.antt =====
-- The bytes of a chain of clusters, and the rounds that a transfer takes.
use native.Mathlib.Nat
use mathlib.Core.Path.{subst₂}
use boba_os.Base.{
  ℕ, zero, suc, ◌+◌, ◌-◌, ◌*◌, ◌/◌, ◌%◌, ◌≤◌, ◌<◌, ◌≡◌, ap, ◌∙◌, Ram, if◌then◌else◌, ◌==◌, ltb,
  List, [], ◌∷◌, length, drop, arith, ne→==, le→ltb,
}

module _ (cluster_size : ℕ) where
  -- One cluster behind the other: `at c` has the bytes of cluster `c`.
  unfoldable pub contents : (at : ℕ → Ram) → List ℕ → Ram
  contents at [] i = 0
  contents at (c ∷ cs) i = if ltb i cluster_size then at c i else contents at cs (i - cluster_size)

  pub contents-drop :
      (at : ℕ → Ram) (k : ℕ) (cs : List ℕ) (i : ℕ)
      → k ≤ length cs
      → contents at (drop k cs) i ≡ contents at cs (k * cluster_size + i)
  unfolding contents
  contents-drop at zero cs i enough = ap (contents at cs) (omega arith)
  contents-drop at (suc k) [] i enough = absurd (omega arith)
  contents-drop at (suc k) (c ∷ cs) i enough =
      let behind : cluster_size ≤ suc k * cluster_size + i = grind arith in
      rw (le→ltb (suc k * cluster_size + i) cluster_size behind)
        (contents-drop at k cs i (omega arith) ∙ ap (contents at cs) (grind arith))

  -- `k` rounds move `left` bytes, all but the last a whole cluster.
  abbrev pub Rounds : (k left : ℕ) → Type 0
  Rounds zero left = left ≡ 0
  Rounds (suc zero) left = (0 < left) × (left ≤ cluster_size)
  Rounds (suc (suc k)) left = (cluster_size < left) × Rounds (suc k) (left - cluster_size)

  more_Rounds :
      (k left more : ℕ)
      → Rounds k left
      → 0 < left
      → more ≡ cluster_size + left
      → Rounds (suc k) more
  more_Rounds zero left more r some_left e = absurd (omega arith)
  more_Rounds (suc k) left more r some_left e =
      let rest : more - cluster_size ≡ left = omega arith in (omega arith, rw rest r)

  abbrev rounded : (q r : ℕ) → ℕ
  rounded q zero = q
  rounded q (suc r) = suc q

  rounded-if : (q r : ℕ) → rounded q r ≡ q + (if r == 0 then 0 else 1)
  rounded-if q zero = omega arith
  rounded-if q (suc r) = rw (ne→== (suc r) 0 (omega arith)) (omega arith)

  rounded-Rounds :
      (q r : ℕ) → 0 < cluster_size → r < cluster_size → Rounds (rounded q r) (r + q * cluster_size)
  rounded-Rounds zero zero some_size small = omega arith
  rounded-Rounds zero (suc r) some_size small = (omega arith, omega arith)
  rounded-Rounds (suc zero) zero some_size small = (omega arith, omega arith)
  rounded-Rounds (suc zero) (suc r) some_size small =
      more_Rounds 1 (suc r) (suc r + 1 * cluster_size) (omega arith, omega arith) (omega arith)
        (omega arith)
  rounded-Rounds (suc (suc q)) zero some_size small =
      more_Rounds (suc q) (0 + suc q * cluster_size) (0 + suc (suc q) * cluster_size)
        (rounded-Rounds (suc q) zero some_size small) (grind arith) (grind arith)
  rounded-Rounds (suc (suc q)) (suc r) some_size small =
      more_Rounds (suc (suc q)) (suc r + suc q * cluster_size) (suc r + suc (suc q) * cluster_size)
        (rounded-Rounds (suc q) (suc r) some_size small) (grind arith) (grind arith)

  pub count-Rounds :
      (n : ℕ)
      → 0 < cluster_size
      → Rounds (n / cluster_size + (if n % cluster_size == 0 then 0 else 1)) n
  count-Rounds n some_size =
      let whole : n % cluster_size + n / cluster_size * cluster_size ≡ n =
        ap (λ x. n % cluster_size + x) (Nat.mul_comm (n / cluster_size) cluster_size)
        ∙ Nat.mod-add-div n cluster_size in
      subst₂ Rounds (rounded-if (n / cluster_size) (n % cluster_size)) whole
        (rounded-Rounds (n / cluster_size) (n % cluster_size) some_size (Nat.mod-lt n some_size))

  -- Rounds that start behind `q` clusters stay in a chain that the bytes fit into.
  pub Rounds-fit :
      (k left q m : ℕ)
      → Rounds k left
      → q * cluster_size + left ≤ m * cluster_size
      → 0 < cluster_size
      → q + k ≤ m
  Rounds-fit zero left q m r fits some_size = Nat.le_of_mul-le-mul_right (omega arith) some_size
  Rounds-fit (suc zero) left q m r fits some_size =
      let behind : q * cluster_size < m * cluster_size = omega arith in
      let below = Nat.lt_of_mul-lt-mul_right cluster_size behind in omega arith
  Rounds-fit (suc (suc k)) left q m r fits some_size =
      let next = Rounds-fit (suc k) (left - cluster_size) (q + 1) m r.1 (grind arith) some_size in
      omega arith
