-- ===== src/Paging/Range.antt =====
-- mapOrCreateRange and virtualToPhysical.
use boba_os.Base.{
  ℕ, zero, suc, ◌+◌, ◌-◌, ◌*◌, ◌/◌, ◌%◌, ◌^◌, ◌≤◌, ◌<◌, ◌≡◌, ◌≢◌, refl, sym, ap, ◌∙◌, Ram, add64,
  through_int, Option, none, some, Bool, true, false, ltb, List, [], ◌∷◌, arith, inl, inr, Result,
  ok, err, Errno, lt-cases, ltb→lt,
}
use boba_os.Paging.{
  Paging, no_flags, pointer_entry, flags_p_rw, map_page, map_loop, map_or_create_range, after_page,
  get_pt_table, virtual_to_physical, pt_index, size_4kb,
}
use boba_os.Paging.Walk.{walk, word, Pages, Tree, page_path}
use boba_os.Paging.Map.{Mapped, map_page-Mapped, page_path-IsPath}

-- The entry of an address, by the number of its page: translation looks at the low 48 bits.
abbrev pub page : ℕ → ℕ
page a = (a / 4096) % 2 ^ 36

abbrev pub entry_of : Ram → (root a : ℕ) → ℕ
entry_of w root a = word w root (page_path a) (pt_index a)

virtual_to_physical-entry_of :
    (w : Ram) (root a : ℕ)
    → 0 < root
    → entry_of w root a ≢ 0
    → virtual_to_physical w a root ≡ no_flags (entry_of w root a) + a % 4096
unfolding virtual_to_physical get_pt_table walk word
virtual_to_physical-entry_of w root a there ne = ground arith

-- The indexes of a page number, last one first.
path_of_page : ℕ → List ℕ
path_of_page p = p % 512 ∷ p / 512 % 512 ∷ p / 2 ^ 18 % 512 ∷ p / 2 ^ 27 % 512 ∷ []

four :
    {a b c d a' b' c' d' : ℕ}
    → a ≡ a'
    → b ≡ b'
    → c ≡ c'
    → d ≡ d'
    → a ∷ b ∷ c ∷ d ∷ [] ≡ a' ∷ b' ∷ c' ∷ d' ∷ []
four e f g h = cc

four-injective :
    {a b c d a' b' c' d' : ℕ}
    → a ∷ b ∷ c ∷ d ∷ [] ≡ a' ∷ b' ∷ c' ∷ d' ∷ []
    → (a ≡ a') × (b ≡ b') × (c ≡ c') × (d ≡ d')
four-injective e = (cc, cc, cc, cc)

path_of_page-page : (a : ℕ) → pt_index a ∷ page_path a ≡ path_of_page (page a)
unfolding path_of_page
path_of_page-page a = four (omega arith) (omega arith) (omega arith) (omega arith)

same_page : (a b : ℕ) → page a ≡ page b → pt_index a ∷ page_path a ≡ pt_index b ∷ page_path b
same_page a b e = path_of_page-page a ∙ ap path_of_page e ∙ sym (path_of_page-page b)

other_page : (a b : ℕ) → page a ≢ page b → pt_index a ∷ page_path a ≢ pt_index b ∷ page_path b
other_page a b ne e = let (w, x, y, z) = four-injective e in ne (omega arith)

entry_at : Ram → (root : ℕ) → List ℕ → ℕ
entry_at w root [] = 0
entry_at w root (i ∷ is) = word w root is i

same_entry : (w : Ram) (root a b : ℕ) → page a ≡ page b → entry_of w root a ≡ entry_of w root b
unfolding entry_at
same_entry w root a b e = ap (entry_at w root) (same_page a b e)

module _ (alloc : ℕ → Option ℕ) (g : Pages alloc) (root phys virt size : ℕ) where
  -- The pages from number `c` on are mapped, and no others changed.
  pub record Ranged (c : ℕ) (t t' : Paging) : Type 0 where
    pub tree : Tree alloc root t'
    pub mapped :
        (a n : ℕ)
        → c ≤ n
        → n * 4096 < size
        → page a ≡ page (virt + n * 4096)
        → entry_of t'.words root a ≡ pointer_entry (phys + n * 4096) flags_p_rw
    pub others :
        (a : ℕ)
        → ((n : ℕ) → c ≤ n → n * 4096 < size → page a ≢ page (virt + n * 4096))
        → entry_of t'.words root a ≡ entry_of t.words root a

  -- What mapOrCreateRange answers: the range is mapped, or kzalloc failed.
  abbrev pub MappedRange : (c : ℕ) → Paging → Option (Result (Unit {0}) × Paging) → Type 0
  MappedRange c t none = ⊥
  MappedRange c t (some (ok u, t')) = Ranged c t t'
  MappedRange c t (some (err e, t')) =
      Tree alloc root t' × (e ≡ Errno.enmem) × (n : ℕ) × (alloc n ≡ none)

  module _ (t t' : Paging) (c v p : ℕ) (at_v : page v ≡ page (virt + c * 4096))
      (at_p : p ≡ phys + c * 4096) (small : size ≤ 2 ^ 31) (inside : c * 4096 < size) where
    number : (n : ℕ) → n ≡ c → page (virt + n * 4096) ≡ page v
    number n e = ap (λ k. page (virt + k * 4096)) e ∙ sym at_v

    written :
        (u : Unit {0}) (a n : ℕ)
        → Mapped alloc g root t p v (ok u) t'
        → n ≡ c
        → page a ≡ page (virt + n * 4096)
        → entry_of t'.words root a ≡ pointer_entry (phys + n * 4096) flags_p_rw
    written u a n m same e =
        same_entry t'.words root a v (e ∙ number n same)
        ∙ m.1
        ∙ ap (λ k. pointer_entry k flags_p_rw) (at_p ∙ ap (λ k. phys + k * 4096) (sym same))

    spared :
        (u : Unit {0}) (a : ℕ)
        → Mapped alloc g root t p v (ok u) t'
        → page a ≢ page (virt + c * 4096)
        → entry_of t'.words root a ≡ entry_of t.words root a
    spared u a m ne =
        m.2 (pt_index a) (page_path a) (page_path-IsPath alloc g root a) refl (omega arith)
          (other_page a v (λ e. ne (e ∙ at_v)))

    last-Ranged :
        (u : Unit {0}) → Mapped alloc g root t p v (ok u) t' → size ≤ (c + 1) * 4096 → Ranged c t t'
    last-Ranged u m last = record {
      tree = m.0;
      mapped = λ a n low high e. written u a n m (omega arith) e;
      others = λ a out. spared u a m (out c (omega arith) inside);
    }

    more-Ranged :
        (u : Unit {0}) (t'' : Paging)
        → Mapped alloc g root t p v (ok u) t'
        → Ranged (c + 1) t' t''
        → Ranged c t t''
    more-Ranged u t'' m r = record {
      tree = r.tree;
      mapped = λ a n low high e. elim (lt-cases c n) [
        | inl later ↦ r.mapped a n (omega arith) high e
        | inr now ↦ r.others a (λ k above bound e'. omega arith) ∙ written u a n m (omega arith) e
      ];
      others = λ a out.
          r.others a (λ n above bound. out n (omega arith) bound)
          ∙ spared u a m (out c (omega arith) inside);
    }

    after_page-MappedRange :
        (r : Result (Unit {0})) (more : Bool) (rest : Option (Result (Unit {0}) × Paging))
        → Mapped alloc g root t p v r t'
        → (more ≡ true → Tree alloc root t' → MappedRange (c + 1) t' rest)
        → (more ≡ false → size ≤ (c + 1) * 4096)
        → MappedRange c t (after_page alloc r t' more rest)
    unfolding after_page
    after_page-MappedRange (err e) more rest m next last = (m.0.tree, m.1, m.2, m.3)
    after_page-MappedRange (ok u) false rest m next last = last-Ranged u m (last refl)
    after_page-MappedRange (ok u) true none m next last = next refl m.0
    after_page-MappedRange (ok u) true (some (ok u', t'')) m next last =
        more-Ranged u t'' m (next refl m.0)
    after_page-MappedRange (ok u) true (some (err e, t'')) m next last = next refl m.0

  map_loop-MappedRange :
      (k c : ℕ) (t : Paging)
      → Tree alloc root t
      → size ≤ 2 ^ 31
      → phys + size ≤ 2 ^ 48
      → virt + size ≤ 2 ^ 64
      → c * 4096 < size
      → size < (c + k) * 4096
      → MappedRange c t (map_loop alloc t root phys virt size c (c * 4096) k)
  unfolding map_loop after_page
  map_loop-MappedRange zero c t tree small low high inside fuel = absurd (omega arith)
  map_loop-MappedRange (suc k) c t tree small low high inside fuel =
      let p = add64 phys (through_int (c * size_4kb)) in
      let v = add64 virt (through_int (c * size_4kb)) in
      let next : add64 (c * 4096) size_4kb ≡ (c + 1) * 4096 = omega arith in
      rw next (
        after_page-MappedRange t (map_page alloc t root p v).1 c v p (ground arith) (ground arith)
          small inside (map_page alloc t root p v).0 (ltb ((c + 1) * 4096) size) _
          (map_page-Mapped alloc g root t tree p v)
          (λ more tree'.
            map_loop-MappedRange k (c + 1) (map_page alloc t root p v).1 tree' small low high
              (ltb→lt _ _ more) (omega arith))
          (λ done. ground arith))

-- The translation after a range was mapped.
module _ (alloc : ℕ → Option ℕ) (g : Pages alloc) (root : ℕ) (t : Paging) (tree : Tree alloc root t)
    (phys virt size : ℕ) (some_bytes : 0 < size) (small : size ≤ 2 ^ 31)
    (low : phys + size ≤ 2 ^ 48) (high : virt + size ≤ 2 ^ 64) where
  -- From separate tables and a kzalloc that gives aligned pages, each once, mapOrCreateRange of 1
  -- byte to 2 GiB, below 2^48 in physical and 2^64 in virtual addresses, comes to an end. If it
  -- succeeds, the entries of the pages of the range hold the physical pages in order, every other
  -- page keeps its entry, and the tables are still separate; it answers -ENMEM only if kzalloc
  -- failed, and the tables are separate then too.
  pub map_or_create_range-MappedRange :
      MappedRange alloc g root phys virt size 0 t (map_or_create_range alloc t root phys virt size)
  unfolding map_or_create_range
  map_or_create_range-MappedRange =
      map_loop-MappedRange alloc g root phys virt size (size / size_4kb + 1) 0 t tree small low high
        some_bytes (omega arith)

  -- After such a range was mapped at page boundaries, virtualToPhysical takes each of its
  -- addresses to the physical address at the same offset.
  pub virtual_to_physical-map_or_create_range :
      {t' : Paging} (a : ℕ)
      → phys % 4096 ≡ 0
      → virt % 4096 ≡ 0
      → map_or_create_range alloc t root phys virt size ≡ some (ok tt, t')
      → virt ≤ a
      → a < virt + size
      → virtual_to_physical t'.words a root ≡ phys + (a - virt)
  virtual_to_physical-map_or_create_range {t'} a pa va run above below =
      let r : Ranged alloc g root phys virt size 0 t t' =
        rw run at map_or_create_range-MappedRange in
      let here = r.mapped a ((a - virt) / 4096) (omega arith) (omega arith) (omega arith) in
      virtual_to_physical-entry_of t'.words root a tree.root_there (λ z. omega (arith, here, z))
      ∙ omega (arith, here)
