-- ===== src/Paging/Map.antt =====
-- One round of mapOrCreateRange: what it changes in the tree of tables.
use mathlib.Core.Path.{subst}
use boba_os.Base.{
  ℕ, ◌+◌, ◌<◌, ◌≡◌, ◌≢◌, refl, sym, ap, ◌∙◌, Option, none, ◌==◌, List, [], ◌∷◌, length, arith,
  Bool-cases, inl, inr, ◌⊎◌, ==→eq, ==→ne, eq→==, ne→==, Option-cases, Result, ok, err, Errno,
}
use boba_os.Paging.{
  Paging, slot, no_flags, pointer_entry, flags_p_rw, get_or_create_entry, descend, map_page,
  write_page, pml4_index, pdp_index, pd_index, pt_index,
}
use boba_os.Paging.Walk.{
  walk, word, IsPath, Pages, Tree, IsPath-tail, page_path, walk-step, word-there,
}
use boba_os.Paging.Grow.{word-grown, grown-at, grown-Tree}
use boba_os.Paging.Leaf.{word-set, word-set-same, set-Tree}

module _ (alloc : ℕ → Option ℕ) (g : Pages alloc) (root : ℕ) where
  -- The entries of the last tables are as before.
  pub record Kept (t t' : Paging) : Type 0 where
    pub tree : Tree alloc root t'
    pub words :
        (j : ℕ) (js : List ℕ)
        → IsPath js
        → length js ≡ 3
        → j < 512
        → word t'.words root js j ≡ word t.words root js j

  -- What descending to the end of a path leaves: its table, or kzalloc failed.
  abbrev pub Reached : Paging → List ℕ → Result ℕ → Paging → Type 0
  Reached t path (ok table) t' = Kept t t' × (walk t'.words root path ≡ table) × (table ≢ 0)
  Reached t path (err e) t' = Kept t t' × (e ≡ Errno.enmem) × (n : ℕ) × (alloc n ≡ none)

  unchanged : (t : Paging) → Tree alloc root t → Kept t t
  unchanged t tree = record { tree = tree; words = λ j js h l b. refl }

  out_of_memory : (t : Paging) → Tree alloc root t → Kept t (record t { calls = t.calls + 1 })
  out_of_memory t tree = record {
    tree = record {
      root_aligned = tree.root_aligned;
      root_there = tree.root_there;
      distinct = tree.distinct;
      pointers = tree.pointers;
      fresh = λ n p is later got h. tree.fresh n p is (omega arith) got h;
    };
    words = λ j js h l b. refl;
  }

  -- One entry.
  abbrev Entry : Paging → (is : List ℕ) (i entry : ℕ) → Paging → Type 0
  Entry t is i entry t' =
      Kept t t'
      × (((no_flags entry ≡ 0) × (n : ℕ) × (alloc n ≡ none))
          ⊎ ((no_flags entry ≢ 0) × (walk t'.words root (i ∷ is) ≡ no_flags entry)))

  module _ (t : Paging) (tree : Tree alloc root t) (is : List ℕ)
      (there : walk t.words root is ≢ 0) where
    get_or_create_entry-Entry :
        (i : ℕ)
        → IsPath (i ∷ is)
        → Entry t is i
            (get_or_create_entry alloc t (walk t.words root is) i).0
            (get_or_create_entry alloc t (walk t.words root is) i).1
    unfolding get_or_create_entry
    get_or_create_entry-Entry i path =
        elim (Bool-cases (t.words (slot (walk t.words root is) i) == 0)) [
          | inl empty ↦ elim (Option-cases (alloc t.calls)) [
            | inl out ↦ rw (empty, out) (out_of_memory t tree, inl (refl, t.calls, out))
            | inr (p, got) ↦
                let empty' = ==→eq _ _ empty in
                rw (empty, got)
                  (
                    record {
                      tree = grown-Tree alloc g root t tree i is path there empty' p got;
                      words = λ j js h l b.
                          word-grown alloc g root t tree i is path there empty' p got j js h b
                            (λ e. omega (arith, ap length e, path.1));
                    },
                    inr (
                      omega (arith, g.aligned t.calls p got, g.bounds t.calls p got),
                      grown-at alloc g root t tree i is path there empty' p got
                          ∙ omega (arith, g.aligned t.calls p got),
                    ),
                  )
          ]
          | inr full ↦ rw full (
            unchanged t tree,
            inr (
              (λ z.
                  tree.pointers i is path
                    (λ z'. ==→ne _ _ full (sym (word-there t.words root i is there) ∙ z'))
                    (walk-step t.words root i is there ∙ z)),
              walk-step t.words root i is there,
            ),
          )
        ]

  Kept-trans : {t t' t'' : Paging} → Kept t t' → Kept t' t'' → Kept t t''
  Kept-trans k k' = record {
    tree = k'.tree;
    words = λ j js h l b. k'.words j js h l b ∙ k.words j js h l b;
  }

  Reached-before :
      {t t' : Paging} (t'' : Paging) (path : List ℕ) (r : Result ℕ)
      → Kept t t'
      → Reached t' path r t''
      → Reached t path r t''
  Reached-before t'' path (ok table) k h = (Kept-trans k h.0, h.1, h.2)
  Reached-before t'' path (err e) k h = (Kept-trans k h.0, h.1, h.2, h.3)

  -- The path `is`, with `rest` below it.
  abbrev along : List ℕ → List ℕ → List ℕ
  along is [] = is
  along is (i ∷ rest) = along (i ∷ is) rest

  along-IsPath : (is rest : List ℕ) → IsPath (along is rest) → IsPath is
  along-IsPath is [] h = h
  along-IsPath is (i ∷ rest) h = IsPath-tail i is (along-IsPath (i ∷ is) rest h)

  descend-Reached :
      (rest : List ℕ) (t : Paging)
      → Tree alloc root t
      → (is : List ℕ) → IsPath (along is rest)
      → walk t.words root is ≢ 0
      → Reached t
          (along is rest)
          (descend alloc t (walk t.words root is) rest).0
          (descend alloc t (walk t.words root is) rest).1
  unfolding descend
  descend-Reached [] t tree is path there = (unchanged t tree, refl, there)
  descend-Reached (i ∷ rest) t tree is path there =
      let (kept, found) =
        get_or_create_entry-Entry t tree is there i (along-IsPath (i ∷ is) rest path) in
      let entry = (get_or_create_entry alloc t (walk t.words root is) i).0 in
      let t' = (get_or_create_entry alloc t (walk t.words root is) i).1 in
      elim found [
        | inl (zero_, n, out) ↦ rw (eq→== (no_flags entry) 0 zero_) (kept, refl, n, out)
        | inr (ne, at_) ↦ rw (ne→== (no_flags entry) 0 ne) (
            Reached-before _ (along (i ∷ is) rest) _ kept
              (rw at_ at (descend-Reached rest t' kept.tree (i ∷ is) path (λ z. ne (sym at_ ∙ z)))))
      ]

  -- What a round of mapOrCreateRange leaves: the entry of its page is written, or kzalloc failed.
  abbrev pub Mapped : Paging → (phys virt : ℕ) → Result (Unit {0}) → Paging → Type 0
  Mapped t phys virt (ok u) t' =
      Tree alloc root t'
      × (word t'.words root (page_path virt) (pt_index virt) ≡ pointer_entry phys flags_p_rw)
      × ((j : ℕ) (js : List ℕ)
          → IsPath js
          → length js ≡ 3
          → j < 512
          → j ∷ js ≢ pt_index virt ∷ page_path virt
          → word t'.words root js j ≡ word t.words root js j)
  Mapped t phys virt (err e) t' = Kept t t' × (e ≡ Errno.enmem) × (n : ℕ) × (alloc n ≡ none)

  pub page_path-IsPath : (virt : ℕ) → IsPath (page_path virt)
  page_path-IsPath virt = (omega arith, omega arith)

  write_page-Mapped :
      (t : Paging) (phys virt : ℕ) (r : Result ℕ) (t' : Paging)
      → Reached t (page_path virt) r t'
      → Mapped t phys virt
          (write_page alloc phys (pt_index virt) r t').0
          (write_page alloc phys (pt_index virt) r t').1
  unfolding write_page
  write_page-Mapped t phys virt (err e) t' h = h
  write_page-Mapped t phys virt (ok table) t' (kept, at_, ne) =
      let path = page_path-IsPath virt in
      let there : walk t'.words root (page_path virt) ≢ 0 = λ z. ne (sym at_ ∙ z) in
      let value = pointer_entry phys flags_p_rw in
      let i = pt_index virt in
      subst
        (λ a.
          Mapped t phys virt (write_page alloc phys i (ok a) t').0
            (write_page alloc phys i (ok a) t').1)
        at_
        (
          set-Tree alloc root t' kept.tree i (page_path virt) (omega arith) path refl there value,
          word-set-same alloc root t' kept.tree i (page_path virt) (omega arith) path refl there
              value,
          λ j js h l b n.
              word-set alloc root t' kept.tree i (page_path virt) (omega arith) path refl there
                value j js h b n
              ∙ kept.words j js h l b,
        )

  pub map_page-Mapped :
      (t : Paging)
      → Tree alloc root t
      → (phys virt : ℕ)
      → Mapped t phys virt (map_page alloc t root phys virt).0 (map_page alloc t root phys virt).1
  unfolding map_page walk
  map_page-Mapped t tree phys virt = write_page-Mapped t phys virt _ _ (
      descend-Reached (pml4_index virt ∷ pdp_index virt ∷ pd_index virt ∷ []) t tree []
        (page_path-IsPath virt) (λ z. omega (arith, tree.root_there, z)))
