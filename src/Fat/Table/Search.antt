-- ===== src/Fat/Table/Search.antt =====
-- getFreeFatEntryCluster finds the first free entry of the table.
use boba_os.Base.{
  ℕ, zero, suc, ◌+◌, ◌-◌, ◌*◌, ◌%◌, ◌^◌, ◌≤◌, ◌<◌, ◌≡◌, ◌≢◌, refl, sym, ap, ◌∙◌, Ram, Bool, true,
  false, ◌==◌, Option, none, some, arith, Bool-cases, inl, inr, ==→eq, ==→ne, lt-cases,
}
use boba_os.Stream.{Driver, Transfers}
use boba_os.Stream.Total.{Works}
use boba_os.Fat.{Outcome, done, Disk, FatPrivate, kzalloc_or, seek_read}
use boba_os.Fat.Ready.{Gives, after-Gives, Ready, volume, seek_read-HasRead}
use boba_os.Fat.Table.{masked, first_free, get_multiple_fat_entries}
use boba_os.Fat.Table.Entries.{Layout, fat, Unchanged}
use boba_os.Fat.Table.Words.{le32-eq}

-- The first free entry among those from `i` to `behind`, or that there is none.
abbrev pub FirstFree : (f : ℕ → ℕ) (i behind : ℕ) → Option ℕ → Type 0
FirstFree f i behind none = (j : ℕ) → i ≤ j → j < behind → f j ≢ 0
FirstFree f i behind (some r) =
    (i ≤ r) × (r < behind) × (f r ≡ 0) × ((j : ℕ) → i ≤ j → j < r → f j ≢ 0)

later :
    (f : ℕ → ℕ) (i behind : ℕ) (r : Option ℕ)
    → f i ≢ 0
    → FirstFree f (i + 1) behind r
    → FirstFree f i behind r
later f i behind none used rest = λ j low high. elim (lt-cases i j) [
  | inl after_i ↦ rest j (omega arith) high
  | inr at_i ↦ λ e. used (ap f (omega arith) ∙ e)
]
later f i behind (some r) used rest = (
  omega arith,
  rest.1,
  rest.2,
  λ j low high. elim (lt-cases i j) [
    | inl after_i ↦ rest.3 j (omega arith) high
    | inr at_i ↦ λ e. used (ap f (omega arith) ∙ e)
  ],
)

first_free-here : (f : ℕ → ℕ) (k i : ℕ) → (f i == 0) ≡ true → first_free f (suc k) i ≡ some i
unfolding first_free
first_free-here f k i e = rw (first_free, e) refl

first_free-later :
    (f : ℕ → ℕ) (k i : ℕ) → (f i == 0) ≡ false → first_free f (suc k) i ≡ first_free f k (i + 1)
unfolding first_free
first_free-later f k i e = rw (first_free, e) refl

first_free-none : (f : ℕ → ℕ) (i : ℕ) → first_free f zero i ≡ none
unfolding first_free
first_free-none f i = refl

pub first_free-FirstFree :
    (f : ℕ → ℕ) (k i behind : ℕ) → i + k ≡ behind → FirstFree f i behind (first_free f k i)
first_free-FirstFree f zero i behind e =
    rw (first_free-none f i) (λ j low high. absurd (omega arith))
first_free-FirstFree f (suc k) i behind e = elim (Bool-cases (f i == 0)) [
  | inl free ↦
      rw (first_free-here f k i free)
        (omega arith, omega arith, ==→eq (f i) 0 free, λ j low high. absurd (omega arith))
  | inr used ↦ rw (first_free-later f k i used) (
      later f i behind (first_free f k (i + 1)) (==→ne (f i) 0 used)
        (first_free-FirstFree f k (i + 1) behind (omega arith)))
]

pub FirstFree-same :
    (f g : ℕ → ℕ) (shift i behind : ℕ) (r : Option ℕ)
    → ((j : ℕ) → j < behind → f j ≡ g (shift + j))
    → FirstFree f i behind r
    → FirstFree (λ j. g (shift + j)) i behind r
FirstFree-same f g shift i behind none same h = λ j low high e. h j low high (same j high ∙ e)
FirstFree-same f g shift i behind (some r) same h = (
  h.0,
  h.1,
  sym (same r h.1) ∙ h.2,
  λ j low high e. h.3 j low high (same j (omega (arith, h.1)) ∙ e),
)

module _ (d : Driver) (t : Transfers d) (w : Works d) (alloc : ℕ → Bool)
    (memory : (n : ℕ) → alloc n ≡ true) (offset size : ℕ) (p : FatPrivate) (n : ℕ)
    (l : Layout d t w alloc memory offset size p n) where
  abbrev IsReady : Disk → Type 0
  IsReady = Ready d t w alloc memory offset size

  abbrev vol : Disk → Ram
  vol = volume d t w alloc memory offset size

  abbrev table : Disk → ℕ → ℕ
  table = fat d t w alloc memory offset size p n

  abbrev Kept : Disk → Disk → Type 0
  Kept = Unchanged d t w alloc memory offset size p n l

  kzalloc_or-run :
      (without : Disk → Outcome (Unit {0}) × Disk) (s : Disk)
      → kzalloc_or alloc without s ≡ (done tt, record s { allocs = s.allocs + 1 })
  kzalloc_or-run without s = rw (memory s.allocs) refl

  -- 512 entries at once.
  pub get_multiple_fat_entries-fat :
      (first : ℕ) (s : Disk)
      → IsReady s
      → first + 512 ≤ n
      → Gives
          (get_multiple_fat_entries d alloc p first (first + 512) s)
          (λ f s'. Kept s s' × ((i : ℕ) → i < 512 → f i ≡ table s (first + i)))
  unfolding get_multiple_fat_entries
  get_multiple_fat_entries-fat first s ready inside =
      let s0 : Disk = record s { allocs = s.allocs + 1 } in
      let amount : 4 * (first + 512 - first) ≡ 2048 = omega arith in
      rw (memory s.allocs, amount)
        (after-Gives (seek_read d alloc (first * 4 + p.fat_address) 2048 s0) _
          (seek_read-HasRead d t w alloc memory offset size (first * 4 + p.fat_address) 2048
            (omega arith) (omega (arith, l.copy_behind, l.on_volume))
            (omega (arith, l.copy_behind, l.on_volume)) s0
            (record { reading = ready.reading; writing = ready.writing }))
          (λ out s' r. (
            λ i. masked out (4 * i),
            s',
            refl,
            (
              record { ready = r.ready; same = r.same },
              λ i small.
                  ap (λ x. x % 2 ^ 28)
                    (le32-eq out (vol s) (4 * i) (p.fat_address + 4 * (first + i))
                      (r.bytes (4 * i) (omega arith) ∙ ap (vol s) (omega arith))
                      (r.bytes (4 * i + 1) (omega arith) ∙ ap (vol s) (omega arith))
                      (r.bytes (4 * i + 2) (omega arith) ∙ ap (vol s) (omega arith))
                      (r.bytes (4 * i + 3) (omega arith) ∙ ap (vol s) (omega arith))),
            ),
          )))
