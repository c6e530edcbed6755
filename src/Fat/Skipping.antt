-- ===== src/Fat/Skipping.antt =====
-- The skipping of clusters at the start of writeFatFile, and what an unlinked chain keeps.
use boba_os.Base.{
  ℕ, zero, suc, ◌+◌, ◌<◌, ◌≡◌, refl, sym, ap, ◌∙◌, Ram, Bool, true, false, if◌then◌else◌, ◌==◌,
  List, [], ◌∷◌, length, drop, arith,
}
use boba_os.Stream.{Driver, Transfers}
use boba_os.Stream.Total.{Works}
use boba_os.Fat.{Disk, FatPrivate, is_end, fat_entry_used, pure}
use boba_os.Fat.Ready.{Gives, after-Gives, Ready, volume}
use boba_os.Fat.Table.{get_fat_entry}
use boba_os.Fat.Table.Entries.{Layout, fat, fat_copy, Unchanged, get_fat_entry-fat}
use boba_os.Fat.Table.Chains.{Walk, member}
use boba_os.Fat.Table.Unlink.{Unlinked}
use boba_os.Fat.Files.{skip_loop}

module _ (d : Driver) (t : Transfers d) (w : Works d) (alloc : ℕ → Bool)
    (memory : (n : ℕ) → alloc n ≡ true) (offset size : ℕ) (p : FatPrivate) (n : ℕ)
    (l : Layout d t w alloc memory offset size p n) where
  abbrev IsReady : Disk → Type 0
  IsReady = Ready d t w alloc memory offset size

  abbrev vol : Disk → Ram
  vol = volume d t w alloc memory offset size

  abbrev table : Disk → ℕ → ℕ
  table = fat d t w alloc memory offset size p n

  abbrev Kept : Disk → Disk → Type 0
  Kept = Unchanged d t w alloc memory offset size p n l

  -- Where the skipping ends: at a cluster of the chain, with the rest of the chain behind it.
  abbrev pub Found : (s : Disk) (cs : List ℕ) (r : ℕ × ℕ) → Type 0
  Found s cs r =
      (r.1 ≡ 0)
      × (rest : List ℕ) × (cs ≡ r.0 ∷ rest)
      × (r.0 < n)
      × (is_end r.0 ≡ false)
      × Walk (table s) n (table s r.0) rest

  skip_loop-zero :
      (old e : ℕ) (s : Disk) → is_end e ≡ false → skip_loop d alloc p 0 old e s ≡ pure (e, 0) s
  unfolding skip_loop
  skip_loop-zero old e s live = rw (skip_loop, live) refl

  pub next-Walk :
      (s s1 : Disk) (next c : ℕ) (cs : List ℕ)
      → Kept s s1
      → next ≡ table s c
      → Walk (table s) n (table s c) cs
      → Walk (table s1) n next cs
  next-Walk s s1 next c cs kept value walk = rw (kept.same, value) walk

  same-Found : (s s1 : Disk) (cs : List ℕ) (r : ℕ × ℕ) → Kept s s1 → Found s1 cs r → Found s cs r
  same-Found s s1 cs r kept (none_left, rest, chain, below, live, walk) =
      (none_left, rest, chain, below, live, rw (sym kept.same) walk)

  abbrev UnlinkedIn : (c : ℕ) (rest : List ℕ) → Disk → Disk → Type 0
  UnlinkedIn = Unlinked d t w alloc memory offset size p n l

  pub same-Unlinked :
      (c : ℕ) (rest : List ℕ) (s s1 s2 : Disk)
      → Kept s s1
      → UnlinkedIn c rest s1 s2
      → UnlinkedIn c rest s s2
  same-Unlinked c rest s s1 s2 kept u = record {
    ready = u.ready;
    in_table = λ x small.
        u.in_table x small
        ∙ ap
            (λ m.
              if x == c
              then fat_entry_used
              else if member x rest
              then 0
              else table (record s { medium = m }) x)
            kept.same;
    in_copy = λ x small.
        u.in_copy x small
        ∙ ap
            (λ m.
              if x == c
              then fat_entry_used
              else if member x rest
              then 0
              else fat_copy d t w alloc memory offset size p n (record s { medium = m }) x)
            kept.same;
    others =
        λ a off_table off_copy. u.others a off_table off_copy ∙ ap (λ m. m (offset + a)) kept.same;
  }

  pub skip_loop-Found :
      (q old e : ℕ) (cs : List ℕ) (s : Disk)
      → IsReady s
      → Walk (table s) n e cs
      → q < length cs
      → Gives (skip_loop d alloc p q old e s) (λ r s'. Kept s s' × Found s (drop q cs) r)
  unfolding skip_loop
  skip_loop-Found q old e [] s ready walk inside = absurd (omega arith)
  skip_loop-Found zero old e (c ∷ cs) s ready (at_c, live, below, rest) inside =
      rw (at_c, skip_loop-zero old c s live)
        (
          (c, 0),
          s,
          refl,
          (record { ready = ready; same = refl }, (refl, cs, refl, below, live, rest)),
        )
  skip_loop-Found (suc q) old e (c ∷ []) s ready walk inside = absurd (omega arith)
  skip_loop-Found (suc q) old e (c ∷ c2 ∷ cs) s ready (at_c, live, below, rest) inside = rw at_c (
      after-Gives (get_fat_entry d alloc p c s) _
        (get_fat_entry-fat d t w alloc memory offset size p n l s c ready below)
        (λ next s1 (kept, value).
          let live2 : is_end next ≡ false = rw (value ∙ rest.0) rest.1 in
          let walk1 = next-Walk s s1 next c (c2 ∷ cs) kept value rest in
          let (r, s2, run, (kept2, found)) =
            skip_loop-Found q e next (c2 ∷ cs) s1 kept.ready walk1 (omega arith) in
          rw live2 (
            r,
            s2,
            run,
            (
              record { ready = kept2.ready; same = kept2.same ∙ kept.same },
              same-Found s s1 (drop q (c2 ∷ cs)) r kept found,
            ),
          )))
