-- ===== src/Fat/Table/Unlink.antt =====
-- unlinkFatChain on a chain that ends.
use boba_os.Base.{
  ℕ, zero, suc, ◌+◌, ◌*◌, ◌%◌, ◌^◌, ◌≤◌, ◌<◌, ◌≡◌, refl, sym, ap, ◌∙◌, Ram, Bool, true, false,
  if◌then◌else◌, ◌==◌, List, [], ◌∷◌, length, arith, Bool-cases, inl, inr, ne→==,
}
use boba_os.Memory.Copy.{within}
use boba_os.Stream.{Driver, Transfers}
use boba_os.Stream.Total.{Works}
use boba_os.Fat.{Disk, FatPrivate, fat_entry_free, fat_entry_used, is_end, ◌>>=◌, ◌>>◌, pure}
use boba_os.Fat.Ready.{Gives, after-Gives, Ready, volume}
use boba_os.Fat.Table.{get_fat_entry, write_fat_entry, unlink_loop, unlink_fat_chain}
use boba_os.Fat.Table.Entries.{
  Layout, fat, fat_copy, Entered, get_fat_entry-fat, write_fat_entry-Entered,
}
use boba_os.Fat.Table.Chains.{Walk, Walk-fresh, Walk-same, member}

module _ (d : Driver) (t : Transfers d) (w : Works d) (alloc : ℕ → Bool)
    (memory : (n : ℕ) → alloc n ≡ true) (offset size : ℕ) (p : FatPrivate) (n : ℕ)
    (l : Layout d t w alloc memory offset size p n) where
  abbrev IsReady : Disk → Type 0
  IsReady = Ready d t w alloc memory offset size

  abbrev vol : Disk → Ram
  vol = volume d t w alloc memory offset size

  abbrev table : Disk → ℕ → ℕ
  table = fat d t w alloc memory offset size p n

  abbrev copy : Disk → ℕ → ℕ
  copy = fat_copy d t w alloc memory offset size p n

  -- What is left when the entries of `cs` are free, and nothing else changes.
  pub record Freed (cs : List ℕ) (s s' : Disk) : Type 0 where
    pub ready : IsReady s'
    pub in_table : (x : ℕ) → x < n → table s' x ≡ (if member x cs then 0 else table s x)
    pub in_copy : (x : ℕ) → x < n → copy s' x ≡ (if member x cs then 0 else copy s x)
    pub others :
        (a : ℕ)
        → within p.fat_address (4 * n) a ≡ false
        → within p.fat_copy_start_address (4 * n) a ≡ false
        → vol s' a ≡ vol s a

  abbrev EnteredIn : (c v : ℕ) → Disk → Disk → Type 0
  EnteredIn = Entered d t w alloc memory offset size p n l

  Freed-cons :
      (c : ℕ) (cs : List ℕ) (s s1 s2 s3 : Disk)
      → s1.medium ≡ s.medium
      → EnteredIn c fat_entry_free s1 s2
      → Freed cs s2 s3
      → Freed (c ∷ cs) s s3
  Freed-cons c cs s s1 s2 s3 same one rest = record {
    ready = rest.ready;
    in_table = λ x inside.
        rest.in_table x inside
        ∙ freed-or x (one.table x inside) (ap (λ m. table (record s { medium = m }) x) same);
    in_copy = λ x inside.
        rest.in_copy x inside
        ∙ freed-or x (one.copy x inside) (ap (λ m. copy (record s { medium = m }) x) same);
    others = λ a off_table off_copy.
        rest.others a off_table off_copy
        ∙ one.others a off_table off_copy
        ∙ ap (λ m. m (offset + a)) same;
  }
    where
      freed-or :
          (x : ℕ) {now before old : ℕ}
          → now ≡ (if x == c then fat_entry_free % 2 ^ 28 else before)
          → before ≡ old
          → (if member x cs then 0 else now) ≡ (if member x (c ∷ cs) then 0 else old)
      freed-or x e1 e2 = elim (Bool-cases (x == c)) [
        | inl here ↦ elim (Bool-cases (member x cs)) [
          | inl more ↦ rw (more, here) refl
          | inr last ↦ rw (last, here) (rw here at e1)
        ]
        | inr there ↦ rw (e1, there, e2) refl
      ]

  -- The rest of the walk does not pass the entry that was freed.
  next-Walk :
      (c : ℕ) (cs : List ℕ) (s s1 s2 : Disk) (next : ℕ)
      → is_end c ≡ false
      → c < n
      → next ≡ table s c
      → s1.medium ≡ s.medium
      → EnteredIn c fat_entry_free s1 s2
      → Walk (table s) n (table s c) cs
      → Walk (table s2) n next cs
  next-Walk c cs s s1 s2 next live inside value same one rest =
      let fresh = Walk-fresh (table s) n c cs rest live inside in
      rw value (
        Walk-same (table s) (table s2) n (table s c) cs
          (λ x below m.
            let apart : x == c ≡ false =
              ne→== x c (λ e. cc (sym m ∙ ap (λ y. member y cs) e ∙ fresh)) in
            one.table x below ∙ rw apart (ap (λ m. table (record s { medium = m }) x) same))
          rest)

  unlink_loop-stop :
      (rounds e : ℕ) (s : Disk) → is_end e ≡ true → unlink_loop d alloc p rounds e s ≡ pure tt s
  unfolding unlink_loop
  unlink_loop-stop zero e s h = rw (unlink_loop, h) refl
  unlink_loop-stop (suc rounds) e s h = rw (unlink_loop, h) refl

  unlink_loop-go :
      (rounds e : ℕ) (s : Disk)
      → is_end e ≡ false
      → unlink_loop d alloc p (suc rounds) e s
        ≡ (get_fat_entry d alloc p e >>= λ next.
              (write_fat_entry d alloc p e fat_entry_free >> unlink_loop d alloc p rounds next))
            s
  unfolding unlink_loop
  unlink_loop-go rounds e s h = rw (unlink_loop, h) refl

  unlink_loop-Freed :
      (cs : List ℕ) (rounds e : ℕ) (s : Disk)
      → IsReady s
      → Walk (table s) n e cs
      → length cs ≤ rounds
      → Gives (unlink_loop d alloc p rounds e s) (λ _. Freed cs s)
  unlink_loop-Freed [] rounds e s ready stop enough = rw (unlink_loop-stop rounds e s stop) (
    tt,
    s,
    refl,
    record {
      ready = ready;
      in_table = λ x inside. refl;
      in_copy = λ x inside. refl;
      others = λ a x y. refl;
    },
  )
  unlink_loop-Freed (c ∷ cs) zero e s ready a enough = absurd (omega arith)
  unlink_loop-Freed (c ∷ cs) (suc rounds) e s ready (at_c, live, inside, rest) enough =
      rw (at_c, unlink_loop-go rounds c s live)
        (after-Gives (get_fat_entry d alloc p c s) _
          (get_fat_entry-fat d t w alloc memory offset size p n l s c ready inside)
          (λ next s1 (kept, value).
            after-Gives (write_fat_entry d alloc p c fat_entry_free s1) _
              (write_fat_entry-Entered d t w alloc memory offset size p n l s1 c fat_entry_free
                kept.ready inside (omega arith))
              (λ u s2 one.
                let (u3, s3, run, freed) =
                  unlink_loop-Freed cs rounds next s2 one.ready
                    (next-Walk c cs s s1 s2 next live inside value kept.same one rest)
                    (omega arith) in
                (u3, s3, run, Freed-cons c cs s s1 s2 s3 kept.same one freed))))

  -- What unlinkFatChain leaves of a chain: its first cluster ends it, and the others are free.
  pub record Unlinked (c : ℕ) (cs : List ℕ) (s s' : Disk) : Type 0 where
    pub ready : IsReady s'
    pub in_table :
        (x : ℕ)
        → x < n
        → table s' x ≡ (if x == c then fat_entry_used else if member x cs then 0 else table s x)
    pub in_copy :
        (x : ℕ)
        → x < n
        → copy s' x ≡ (if x == c then fat_entry_used else if member x cs then 0 else copy s x)
    pub others :
        (a : ℕ)
        → within p.fat_address (4 * n) a ≡ false
        → within p.fat_copy_start_address (4 * n) a ≡ false
        → vol s' a ≡ vol s a

  Freed-Unlinked :
      (c : ℕ) (cs : List ℕ) (s s1 s2 s3 : Disk)
      → s1.medium ≡ s.medium
      → Freed cs s1 s2
      → EnteredIn c fat_entry_used s2 s3
      → Unlinked c cs s s3
  Freed-Unlinked c cs s s1 s2 s3 same freed one = record {
    ready = one.ready;
    in_table = λ x inside.
        one.table x inside
        ∙ ap (λ y. if x == c then fat_entry_used else y)
            (freed.in_table x inside
              ∙ ap (λ m. if member x cs then 0 else table (record s { medium = m }) x) same);
    in_copy = λ x inside.
        one.copy x inside
        ∙ ap (λ y. if x == c then fat_entry_used else y)
            (freed.in_copy x inside
              ∙ ap (λ m. if member x cs then 0 else copy (record s { medium = m }) x) same);
    others = λ a off_table off_copy.
        one.others a off_table off_copy
        ∙ freed.others a off_table off_copy
        ∙ ap (λ m. m (offset + a)) same;
  }

  -- On a volume whose streams are ready, from a cluster whose chain ends after `cs` further
  -- clusters of the table, unlinkFatChain ends within one round for each of them and succeeds: the
  -- first cluster is then the whole chain, the others are free in the table and in its copy, every
  -- other entry keeps its value, and no byte outside the two tables changes.
  pub unlink_fat_chain-Unlinked :
      (cs : List ℕ) (rounds c : ℕ) (s : Disk)
      → IsReady s
      → c < n
      → Walk (table s) n (table s c) cs
      → length cs ≤ rounds
      → Gives (unlink_fat_chain d alloc p rounds c s) (λ _. Unlinked c cs s)
  unfolding unlink_fat_chain
  unlink_fat_chain-Unlinked cs rounds c s ready inside walk enough =
      after-Gives (get_fat_entry d alloc p c s) _
        (get_fat_entry-fat d t w alloc memory offset size p n l s c ready inside)
        (λ next s1 (kept, value).
          let walk' : Walk (table s1) n next cs =
            rw (value ∙ ap (λ m. table (record s { medium = m }) c) (sym kept.same))
              (rw kept.same walk) in
          after-Gives (unlink_loop d alloc p rounds next s1) _
            (unlink_loop-Freed cs rounds next s1 kept.ready walk' enough)
            (λ u s2 freed.
              let (u3, s3, run, one) =
                write_fat_entry-Entered d t w alloc memory offset size p n l s2 c fat_entry_used
                  freed.ready inside (omega arith) in
              (u3, s3, run, Freed-Unlinked c cs s s1 s2 s3 kept.same freed one)))
