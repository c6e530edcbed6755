-- ===== src/PageHeap/Find.antt =====
-- The search of findFreePages finds the first run of free entries that is long enough.
use boba_os.Base.{
  ℕ, zero, suc, ◌+◌, ◌-◌, ◌≤◌, ◌<◌, ◌≡◌, ◌≢◌, Ram, Bool, true, false, ◌==◌, Option, none, some,
  arith, inl, inr, Bool-cases, lt-cases, ne→==, ==→eq, ==→ne,
}
use boba_os.PageHeap.{get_table_entry, has_flag, flag_locked, find_loop}

abbrev pub IsFree : Ram → ℕ → Type 0
IsFree m i = has_flag (m (get_table_entry i)) flag_locked ≡ false

-- `n` free entries from `s` on.
abbrev pub FreeRun : Ram → (s n : ℕ) → Type 0
FreeRun m s n = (i : ℕ) → s ≤ i → i < s + n → IsFree m i

-- What the search from `i` with `k` rounds finds.
abbrev pub Found : Ram → (n i k : ℕ) → Option ℕ → Type 0
Found m n i k none = (s : ℕ) → i < s + n → s + n ≤ i + k → ¬ (FreeRun m s n)
Found m n i k (some s) =
    FreeRun m s n × (s + n ≤ i + k) × ((t : ℕ) → i < t + n → t < s → ¬ (FreeRun m t n))

-- The loop's state: `found` free entries before `i`, and a locked one (or none) before those.
pub record Counted (m : Ram) (n i found : ℕ) : Type 0 where
  pub fits : found ≤ i
  pub short : found < n
  pub free : (j : ℕ) → i ≤ j + found → j < i → IsFree m j
  pub stop : (j : ℕ) → j + found + 1 ≡ i → has_flag (m (get_table_entry j)) flag_locked ≡ true

module _ (m : Ram) (n : ℕ) where
  at_eq :
      {i j : ℕ} (b : Bool)
      → has_flag (m (get_table_entry i)) flag_locked ≡ b
      → j ≡ i
      → has_flag (m (get_table_entry j)) flag_locked ≡ b
  at_eq b h e = rw e h

  Counted-locked :
      (i found : ℕ)
      → Counted m n i found
      → has_flag (m (get_table_entry i)) flag_locked ≡ true
      → Counted m n (i + 1) 0
  Counted-locked i found c l = record {
    fits = omega arith;
    short = omega arith;
    free = λ j a b. absurd (omega arith);
    stop = λ j e. at_eq true l (omega arith);
  }

  Counted-free :
      (i found : ℕ)
      → Counted m n i found
      → IsFree m i
      → found + 1 ≢ n
      → Counted m n (i + 1) (found + 1)
  Counted-free i found c f ne = record {
    fits = omega arith;
    short = omega arith;
    free = λ j a b. elim (lt-cases j i) [
      | inl before ↦ c.free j (omega arith) before
      | inr here ↦ at_eq false f (omega arith)
    ];
    stop = λ j e. c.stop j (omega arith);
  }

  -- No run ends just before `i` while the count is short.
  no_run : (i found s : ℕ) → Counted m n i found → s + n ≡ i → ¬ (FreeRun m s n)
  no_run i found s c e run =
      let j : ℕ = i - found - 1 in cc (run j (omega arith) (omega arith), c.stop j (omega arith))

  Found-step :
      (i k : ℕ) (r : Option ℕ)
      → ((s : ℕ) → s + n ≡ i + 1 → ¬ (FreeRun m s n))
      → Found m n (i + 1) k r
      → Found m n i (suc k) r
  Found-step i k none here later = λ s a b run. elim (lt-cases (i + 1) (s + n)) [
    | inl beyond ↦ later s beyond (omega arith) run
    | inr ends ↦ here s (omega arith) run
  ]
  Found-step i k (some r) here later = (
    later.0,
    omega arith,
    λ t a b run. elim (lt-cases (i + 1) (t + n)) [
      | inl beyond ↦ later.2 t beyond b run
      | inr ends ↦ here t (omega arith) run
    ],
  )

  -- The count reaches `n` at entry `i`.
  Found-here :
      (i k found : ℕ)
      → Counted m n i found
      → IsFree m i
      → found + 1 ≡ n
      → Found m n i (suc k) (some (i + 1 - (found + 1)))
  Found-here i k found c f e = (
    λ j a b. elim (lt-cases j i) [
      | inl before ↦ c.free j (omega arith) before
      | inr here ↦ at_eq false f (omega arith)
    ],
    omega arith,
    λ t a b run. absurd (omega arith),
  )

  find_loop-Found : (k i found : ℕ) → Counted m n i found → Found m n i k (find_loop m n i found k)
  unfolding find_loop
  find_loop-Found zero i found c = λ s a b. absurd (omega arith)
  find_loop-Found (suc k) i found c =
      elim (Bool-cases (has_flag (m (get_table_entry i)) flag_locked)) [
        | inl l ↦
            let c' = Counted-locked i found c l in
            rw (l, ne→== 0 n (omega arith))
              (Found-step i k _ (λ s e. no_run (i + 1) 0 s c' e) (find_loop-Found k (i + 1) 0 c'))
        | inr f ↦ elim (Bool-cases (found + 1 == n)) [
          | inl e ↦ rw (f, e) (Found-here i k found c f (==→eq (found + 1) n e))
          | inr e ↦
              let c' = Counted-free i found c f (==→ne (found + 1) n e) in
              rw (f, e)
                (Found-step i k _ (λ s e. no_run (i + 1) (found + 1) s c' e)
                  (find_loop-Found k (i + 1) (found + 1) c'))
        ]
      ]

  -- From the start of the table the search is complete: `none` means that no run is long enough.
  pub find_loop-first : (size : ℕ) → 0 < n → Found m n 0 size (find_loop m n 0 0 size)
  find_loop-first size h = find_loop-Found size 0 0 (record {
    fits = omega arith;
    short = h;
    free = λ j a b. absurd (omega arith);
    stop = λ j e. absurd (omega arith);
  })
