-- ===== src/Paging/Leaf.antt =====
-- The last write of a round of mapOrCreateRange: an entry of a last table.
use boba_os.Base.{
  ℕ, ◌<◌, ◌≡◌, ◌≢◌, refl, sym, ap, ◌∙◌, poke, Option, false, ◌==◌, List, [], ◌∷◌, length, arith,
  Bool-cases, inl, inr, ==→ne, ne→==,
}
use boba_os.Paging.{Paging, slot}
use boba_os.Paging.Walk.{walk, word, IsPath, Tree, slot-injective, walk-aligned, IsPath-tail}

module _ (alloc : ℕ → Option ℕ) (root : ℕ) (t : Paging) (tree : Tree alloc root t) (i : ℕ)
    (is : List ℕ) (b : i < 512) (path : IsPath is) (deep : length is ≡ 3)
    (there : walk t.words root is ≢ 0) (value : ℕ) where
  abbrev pub set : Paging
  set = record t { words = poke t.words (slot (walk t.words root is) i) value }

  elsewhere :
      (j : ℕ) (js : List ℕ)
      → IsPath js
      → j < 512
      → walk t.words root js ≢ 0
      → j ∷ js ≢ i ∷ is
      → (slot (walk t.words root js) j == slot (walk t.words root is) i) ≡ false
  elsewhere j js h bj there' ne = ne→== _ _ (λ e.
      let (same_table, same_index) =
        slot-injective (walk t.words root js) j (walk t.words root is) i
          (walk-aligned t.words root tree.root_aligned js)
          (walk-aligned t.words root tree.root_aligned is) bj b e in
      let same = tree.distinct js is h path there' same_table in ne cc)

  too_short : (j : ℕ) (js : List ℕ) → IsPath (j ∷ js) → j ∷ js ≢ i ∷ is
  too_short j js h e = omega (arith, ap length e)

  pub walk-set : (js : List ℕ) → IsPath js → walk set.words root js ≡ walk t.words root js
  unfolding walk
  walk-set [] h = refl
  walk-set (j ∷ js) h = elim (Bool-cases (walk t.words root js == 0)) [
    | inl none_there ↦ ground (arith, walk-set js (IsPath-tail j js h), none_there)
    | inr some_there ↦ ground (
      arith,
      walk-set js (IsPath-tail j js h),
      elsewhere j js (IsPath-tail j js h) h.0.0 (==→ne _ _ some_there) (too_short j js h),
    )
  ]

  pub word-set-same : word set.words root is i ≡ value
  unfolding word
  word-set-same = ground (arith, walk-set is path)

  pub word-set :
      (j : ℕ) (js : List ℕ)
      → IsPath js
      → j < 512
      → j ∷ js ≢ i ∷ is
      → word set.words root js j ≡ word t.words root js j
  unfolding word
  word-set j js h bj ne = elim (Bool-cases (walk t.words root js == 0)) [
    | inl none_there ↦ ground (arith, walk-set js h, none_there)
    | inr some_there ↦ ground (arith, walk-set js h, elsewhere j js h bj (==→ne _ _ some_there) ne)
  ]

  pub set-Tree : Tree alloc root set
  set-Tree = record {
    root_aligned = tree.root_aligned;
    root_there = tree.root_there;
    distinct = λ js ks h h' ne e.
        tree.distinct js ks h h' (λ z. ne (walk-set js h ∙ z))
          (sym (walk-set js h) ∙ e ∙ walk-set ks h');
    pointers = λ j js h ne z.
        tree.pointers j js h
          (λ z'. ne (word-set j js (IsPath-tail j js h) h.0.0 (too_short j js h) ∙ z'))
          (sym (walk-set (j ∷ js) h) ∙ z);
    fresh = λ n q js later got' h e. tree.fresh n q js later got' h (sym (walk-set js h) ∙ e);
  }
