-- ===== src/Fat/Table/Free.antt =====
-- getFreeFatEntryCluster as a whole.
use boba_os.Base.{
  ℕ, zero, suc, ◌+◌, ◌-◌, ◌*◌, ◌/◌, ◌%◌, ◌^◌, ◌≤◌, ◌<◌, ◌≡◌, ◌≢◌, ◌⊎◌, refl, ap, ◌∙◌, Bool, true,
  false, ltb, Option, none, some, arith, Bool-cases, inl, inr, ltb→lt, lt-cases,
}
use boba_os.Stream.{Driver, Transfers}
use boba_os.Stream.Total.{Works}
use boba_os.Fat.{Outcome, Disk, FatPrivate, pure, ◌>>=◌}
use boba_os.Fat.Ready.{Gives, after-Gives, Ready}
use boba_os.Fat.Table.{first_free, get_multiple_fat_entries, free_loop, get_free_fat_entry_cluster}
use boba_os.Fat.Table.Entries.{Layout, fat, Unchanged}
use boba_os.Fat.Table.Search.{
  FirstFree, first_free-FirstFree, FirstFree-same, get_multiple_fat_entries-fat,
}

module _ (d : Driver) (t : Transfers d) (w : Works d) (alloc : ℕ → Bool)
    (memory : (n : ℕ) → alloc n ≡ true) (offset size : ℕ) (p : FatPrivate) (n : ℕ)
    (l : Layout d t w alloc memory offset size p n)
    (all_sectors : p.boot_record.total_sectors_big ≤ n) (small : n + 1024 < 2 ^ 32) where
  abbrev IsReady : Disk → Type 0
  IsReady = Ready d t w alloc memory offset size

  abbrev table : Disk → ℕ → ℕ
  table = fat d t w alloc memory offset size p n

  abbrev Kept : Disk → Disk → Type 0
  Kept = Unchanged d t w alloc memory offset size p n l

  abbrev total : ℕ
  total = p.boot_record.total_sectors_big

  -- The first free entry, or 0 if the blocks of 512 entries that end before the number of
  -- sectors have none.
  abbrev pub Answer : (f : ℕ → ℕ) → ℕ → Type 0
  Answer f c =
      ((f c ≡ 0) × (c < n) × ((j : ℕ) → j < c → f j ≢ 0))
      ⊎ ((c ≡ 0) × ((j : ℕ) → j / 512 * 512 + 512 < total → f j ≢ 0))

  module _ (rounds first : ℕ) (s : Disk) where
    free_loop-stop :
        ltb (first + 512) total ≡ false
        → free_loop d alloc p (suc rounds) first (first + 512) s ≡ pure 0 s
    unfolding free_loop
    free_loop-stop e = rw (free_loop, e) refl

    free_loop-go :
        ltb (first + 512) total ≡ true
        → free_loop d alloc p (suc rounds) first (first + 512) s
          ≡ (get_multiple_fat_entries d alloc p first (first + 512) >>= λ entries.
                elim (first_free entries 512 0) [
                  | some i ↦ pure ((first + i) % 2 ^ 32)
                  | none ↦
                      free_loop d alloc p rounds
                        ((first + 512) % 2 ^ 32)
                        ((first + 512 + 512) % 2 ^ 32)
                ])
              s
    unfolding free_loop
    free_loop-go e = rw (free_loop, e) refl

  -- What the loop does with the answer of a block.
  from_block-Answer :
      (rounds first : ℕ) (s0 s1 : Disk)
      → Kept s0 s1
      → first + 512 < total
      → ((j : ℕ) → j < first → table s0 j ≢ 0)
      → (o : Option ℕ) → FirstFree (λ j. table s0 (first + j)) 0 512 o
      → (((j : ℕ) → j < first + 512 → table s0 j ≢ 0)
          → Gives
              (free_loop d alloc p rounds (first + 512) (first + 512 + 512) s1)
              (λ c s'. Kept s0 s' × Answer (table s0) c))
      → Gives
          (elim o as (λ o. Disk → Outcome ℕ × Disk) [
            | some i ↦ pure ((first + i) % 2 ^ 32)
            | none ↦
                free_loop d alloc p rounds ((first + 512) % 2 ^ 32) ((first + 512 + 512) % 2 ^ 32)
          ]
            s1)
          (λ c s'. Kept s0 s' × Answer (table s0) c)
  from_block-Answer rounds first s0 s1 kept more used none none_here next =
      let m1 : (first + 512) % 2 ^ 32 ≡ first + 512 = omega (arith, all_sectors, small) in
      let m2 : (first + 512 + 512) % 2 ^ 32 ≡ first + 512 + 512 =
        omega (arith, all_sectors, small) in
      rw (m1, m2)
        (next (λ j inside. elim (lt-cases j first) [
          | inl before ↦ used j before
          | inr here ↦ λ e.
              none_here (j - first) (omega arith) (omega arith) (ap (table s0) (omega arith) ∙ e)
        ]))
  from_block-Answer rounds first s0 s1 kept more used (some i) (low, high, free, before_it) next =
      let m1 : (first + i) % 2 ^ 32 ≡ first + i = omega (arith, all_sectors, small) in
      rw m1 (
        first + i,
        s1,
        refl,
        (
          kept,
          inl (
            free,
            omega (arith, all_sectors),
            λ j below. elim (lt-cases j first) [
              | inl before ↦ used j before
              | inr here ↦ λ e.
                  before_it (j - first) (omega arith) (omega arith)
                    (ap (table s0) (omega arith) ∙ e)
            ],
          ),
        ),
      )

  free_loop-Answer :
      (rounds first : ℕ) (s0 s : Disk)
      → IsReady s
      → s.medium ≡ s0.medium
      → first % 512 ≡ 0
      → first ≤ total
      → total < first + 512 * rounds
      → ((j : ℕ) → j < first → table s0 j ≢ 0)
      → Gives
          (free_loop d alloc p rounds first (first + 512) s)
          (λ c s'. Kept s0 s' × Answer (table s0) c)
  free_loop-Answer zero first s0 s ready same blocks below enough used = absurd (omega arith)
  free_loop-Answer (suc rounds) first s0 s ready same blocks below enough used =
      elim (Bool-cases (ltb (first + 512) total)) [
        | inr over ↦ rw (free_loop-stop rounds first s over) (
          0,
          s,
          refl,
          (record { ready = ready; same = same }, inr (refl, λ j searched. used j (ground arith))),
        )
        | inl more ↦ rw (free_loop-go rounds first s more) (
            after-Gives (get_multiple_fat_entries d alloc p first (first + 512) s) _
              (get_multiple_fat_entries-fat d t w alloc memory offset size p n l first s ready
                (ground (arith, all_sectors)))
              (λ f s1 (kept, values).
                let found =
                  FirstFree-same f (table s0) first 0 512 (first_free f 512 0)
                    (λ j inside.
                      values j inside ∙ ap (λ m. table (record s { medium = m }) (first + j)) same)
                    (first_free-FirstFree f 512 0 512 refl) in
                let kept0 : Kept s0 s1 = record { ready = kept.ready; same = kept.same ∙ same } in
                let more' = ltb→lt (first + 512) total more in
                from_block-Answer rounds first s0 s1 kept0 more' used (first_free f 512 0) found
                  (λ used'.
                    free_loop-Answer rounds (first + 512) s0 s1 kept0.ready kept0.same (omega arith)
                      (omega arith) (omega arith) used')))
      ]

  -- On a volume whose streams are ready, with an entry in the table for each sector,
  -- getFreeFatEntryCluster ends within one round for each 512 sectors, and one more, and changes
  -- no byte of the medium. It gives the first free entry of the table, or 0 if the blocks of 512
  -- entries that end before the number of sectors have no free one.
  pub get_free_fat_entry_cluster-Answer :
      (s : Disk)
      → IsReady s
      → Gives (get_free_fat_entry_cluster d alloc p s) (λ c s'. Kept s s' × Answer (table s) c)
  unfolding get_free_fat_entry_cluster
  get_free_fat_entry_cluster-Answer s ready =
      free_loop-Answer (total / 512 + 1) 0 s s ready refl refl (omega arith) (omega arith)
        (λ j inside. absurd (omega arith))
