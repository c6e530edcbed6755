-- ===== src/Paging/Grow.antt =====
-- getOrCreateEntry on the tree of tables.
use boba_os.Base.{
  ℕ, ◌%◌, ◌≤◌, ◌<◌, ◌≡◌, ◌≢◌, refl, sym, ap, ◌∙◌, Option, some, false, if◌then◌else◌, ◌==◌, List,
  [], ◌∷◌, length, arith, Bool-cases, inl, inr, ◌⊎◌, ==→eq, ==→ne, ne→==,
}
use boba_os.Paging.{Paging, slot, entered, pointer_entry}
use boba_os.Paging.Walk.{walk, word, IsPath, Pages, Tree, slot-injective, walk-aligned, IsPath-tail}

tail-injective : {i j : ℕ} {is js : List ℕ} → i ∷ is ≡ j ∷ js → (i ≡ j) × (is ≡ js)
tail-injective e = (cc, cc)

longer : (i : ℕ) (is : List ℕ) → i ∷ is ≢ is
longer i is e = omega (arith, ap length e)

module _ (alloc : ℕ → Option ℕ) (g : Pages alloc) (root : ℕ) (t : Paging)
    (tree : Tree alloc root t) where
  -- A new table `p` at index `i` of the table that `is` leads to.
  module _ (i : ℕ) (is : List ℕ) (path : IsPath (i ∷ is)) (there : walk t.words root is ≢ 0)
      (empty : t.words (slot (walk t.words root is) i) ≡ 0) (p : ℕ)
      (got : alloc t.calls ≡ some p) where
    abbrev pub grown : Paging
    grown = entered alloc t (walk t.words root is) i p

    abbrev Grown : List ℕ → Type 0
    Grown js =
        ((js ≡ i ∷ is) × (walk grown.words root js ≡ p))
        ⊎ ((js ≢ i ∷ is) × (walk grown.words root js ≡ walk t.words root js))

    parent-apart : walk t.words root is ≢ p
    parent-apart = tree.fresh t.calls p is (omega arith) got (IsPath-tail i is path)

    missing : walk t.words root (i ∷ is) ≡ 0
    unfolding walk
    missing = ground (arith, empty)

    -- A word of another table, and one of the new table.
    other :
        (a j : ℕ)
        → a % 4096 ≡ 0
        → j < 512
        → a ≢ p
        → grown.words (slot a j) ≡ (
            if slot a j == slot (walk t.words root is) i
            then pointer_entry p 3
            else t.words (slot a j))
    other a j al b ne = ground (arith, g.aligned t.calls p got)

    own : (j : ℕ) → j < 512 → grown.words (slot p j) ≡ 0
    own j b = ground (
      arith,
      g.aligned t.calls p got,
      walk-aligned t.words root tree.root_aligned is,
      parent-apart,
      path,
    )

    -- An entry at the new table's place is the new table's.
    same_path :
        (js : List ℕ) (j : ℕ)
        → IsPath js
        → j < 512
        → walk t.words root js ≢ 0
        → j ∷ js ≢ i ∷ is
        → (slot (walk t.words root js) j == slot (walk t.words root is) i) ≡ false
    same_path js j h b there' ne = ne→== _ _ (λ e.
        let (same_table, same_index) =
          slot-injective (walk t.words root js) j (walk t.words root is) i
            (walk-aligned t.words root tree.root_aligned js)
            (walk-aligned t.words root tree.root_aligned is) b path.0.0 e in
        let same = tree.distinct js is h (IsPath-tail i is path) there' same_table in ne cc)

    -- One more index behind a path that does not lead to the new table.
    step-kept :
        (j : ℕ) (js : List ℕ)
        → IsPath (j ∷ js)
        → walk grown.words root js ≡ walk t.words root js
        → walk t.words root js ≢ 0
        → Grown (j ∷ js)
    unfolding walk
    step-kept j js h kept ne =
        elim (Bool-cases (slot (walk t.words root js) j == slot (walk t.words root is) i)) [
          | inl hit ↦
              let (same_table, same_index) =
                slot-injective (walk t.words root js) j (walk t.words root is) i
                  (walk-aligned t.words root tree.root_aligned js)
                  (walk-aligned t.words root tree.root_aligned is) h.0.0 path.0.0 (==→eq _ _ hit) in
              let same =
                tree.distinct js is (IsPath-tail j js h) (IsPath-tail i is path) ne same_table in
              inl (
                cc,
                ground (
                  arith,
                  kept,
                  other (walk t.words root js) j (walk-aligned t.words root tree.root_aligned js)
                      h.0.0 (tree.fresh t.calls p js (omega arith) got (IsPath-tail j js h)),
                  hit,
                  g.aligned t.calls p got,
                  g.bounds t.calls p got,
                ),
              )
          | inr miss ↦ inr (
            (λ e.
                ground
                  (arith, miss, ap (walk t.words root) (tail-injective e).1, (tail-injective e).0)),
            ground (
              arith,
              kept,
              other (walk t.words root js) j (walk-aligned t.words root tree.root_aligned js) h.0.0
                  (tree.fresh t.calls p js (omega arith) got (IsPath-tail j js h)),
              miss,
            ),
          )
        ]

    pub walk-Grown : (js : List ℕ) → IsPath js → Grown js
    unfolding walk
    walk-Grown [] h = inr ((λ e. cc), refl)
    walk-Grown (j ∷ js) h = elim (walk-Grown js (IsPath-tail j js h)) [
      | inl (same, at_p) ↦ inr (
        (λ e. longer i is (sym same ∙ (tail-injective e).1)),
        ground (arith, at_p, own j h.0.0, ap (walk t.words root) same ∙ missing),
      )
      | inr (ne, kept) ↦ elim (Bool-cases (walk t.words root js == 0)) [
        | inl none_there ↦ inr (
          (λ e. there (sym (ap (walk t.words root) (tail-injective e).1) ∙ ==→eq _ _ none_there)),
          ground (arith, kept, none_there),
        )
        | inr some_there ↦ step-kept j js h kept (==→ne _ _ some_there)
      ]
    ]

    -- Every entry but the new table's keeps its value.
    pub word-grown :
        (j : ℕ) (js : List ℕ)
        → IsPath js
        → j < 512
        → j ∷ js ≢ i ∷ is
        → word grown.words root js j ≡ word t.words root js j
    unfolding word
    word-grown j js h b ne = elim (walk-Grown js h) [
      | inl (same, at_p) ↦ ground (arith, at_p, own j b, ap (walk t.words root) same ∙ missing)
      | inr (ne', kept) ↦ elim (Bool-cases (walk t.words root js == 0)) [
        | inl none_there ↦ ground (arith, kept, none_there)
        | inr some_there ↦ ground (
          arith,
          kept,
          other (walk t.words root js) j (walk-aligned t.words root tree.root_aligned js) b
              (tree.fresh t.calls p js (omega arith) got h),
          same_path js j h b (==→ne _ _ some_there) ne,
        )
      ]
    ]

    pub grown-at : walk grown.words root (i ∷ is) ≡ p
    grown-at = elim (walk-Grown (i ∷ is) path) [
      | inl (same, at_p) ↦ at_p
      | inr (ne, kept) ↦ absurd (ne refl)
    ]

    not_new : (js : List ℕ) → IsPath js → walk t.words root js ≢ p
    not_new js h = tree.fresh t.calls p js (omega arith) got h

    grown-distinct :
        (js ks : List ℕ)
        → IsPath js
        → IsPath ks
        → walk grown.words root js ≢ 0
        → walk grown.words root js ≡ walk grown.words root ks
        → js ≡ ks
    grown-distinct js ks h h' ne e = elim (walk-Grown js h) [
      | inl (s, a) ↦ elim (walk-Grown ks h') [
        | inl (s', a') ↦ s ∙ sym s'
        | inr (n', k') ↦ absurd (not_new ks h' (sym k' ∙ sym e ∙ a))
      ]
      | inr (n, k) ↦ elim (walk-Grown ks h') [
        | inl (s', a') ↦ absurd (not_new js h (sym k ∙ e ∙ a'))
        | inr (n', k') ↦ tree.distinct js ks h h' (λ z. ne (k ∙ z)) (sym k ∙ e ∙ k')
      ]
    ]

    grown-pointers :
        (j : ℕ) (js : List ℕ)
        → IsPath (j ∷ js)
        → word grown.words root js j ≢ 0
        → walk grown.words root (j ∷ js) ≢ 0
    grown-pointers j js h ne = elim (walk-Grown (j ∷ js) h) [
      | inl (s, a) ↦ λ z. omega (arith, g.bounds t.calls p got, a, z)
      | inr (n, k) ↦ λ z.
          tree.pointers j js h (λ z'. ne (word-grown j js (IsPath-tail j js h) h.0.0 n ∙ z'))
            (sym k ∙ z)
    ]

    grown-fresh :
        (n q : ℕ) (js : List ℕ)
        → grown.calls ≤ n
        → alloc n ≡ some q
        → IsPath js
        → walk grown.words root js ≢ q
    grown-fresh n q js later got' h e = elim (walk-Grown js h) [
      | inl (s, a) ↦ omega (arith, g.apart t.calls n q (got ∙ ap some (sym a ∙ e)) got')
      | inr (n', k) ↦ tree.fresh n q js (omega arith) got' h (sym k ∙ e)
    ]

    pub grown-Tree : Tree alloc root grown
    grown-Tree = record {
      root_aligned = tree.root_aligned;
      root_there = tree.root_there;
      distinct = grown-distinct;
      pointers = grown-pointers;
      fresh = grown-fresh;
    }
