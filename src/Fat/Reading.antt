-- ===== src/Fat/Reading.antt =====
-- readFatFile from the start of a cluster on.
use native.Mathlib.Nat
use boba_os.Base.{
  ℕ, zero, suc, ◌+◌, ◌-◌, ◌%◌, ◌^◌, ◌≤◌, ◌<◌, ◌≡◌, refl, sym, ap, ◌∙◌, Ram, Bool, true, false,
  if◌then◌else◌, ◌==◌, List, [], ◌∷◌, length, drop, arith, inl, inr, ne→==, le→ltb, lt→ltb,
  lt-cases, add64,
}
use boba_os.Memory.Copy.{within}
use boba_os.Stream.{Driver, Transfers, copy_in}
use boba_os.Stream.Total.{Works}
use boba_os.Fat.{Disk, FatPrivate, is_end, data_cluster_to_absolute_address}
use boba_os.Fat.Ready.{Gives, after-Gives, Ready, volume}
use boba_os.Fat.Table.{get_fat_entry, skip_clusters}
use boba_os.Fat.Table.Entries.{Layout, fat, Unchanged, get_fat_entry-fat}
use boba_os.Fat.Table.Chains.{Walk}
use boba_os.Fat.Files.{word16, next_to_read}
use boba_os.Fat.Contents.{contents, Rounds}

module _ (d : Driver) (t : Transfers d) (w : Works d) (alloc : ℕ → Bool)
    (memory : (n : ℕ) → alloc n ≡ true) (offset size : ℕ) (p : FatPrivate) (n : ℕ)
    (l : Layout d t w alloc memory offset size p n) where
  abbrev IsReady : Disk → Type 0
  IsReady = Ready d t w alloc memory offset size

  abbrev vol : Disk → Ram
  vol = volume d t w alloc memory offset size

  abbrev table : Disk → ℕ → ℕ
  table = fat d t w alloc memory offset size p n

  abbrev Kept : Disk → Disk → Type 0
  Kept = Unchanged d t w alloc memory offset size p n l

  Kept-trans : (s s1 s2 : Disk) → Kept s s1 → Kept s1 s2 → Kept s s2
  Kept-trans s s1 s2 a b = record { ready = b.ready; same = b.same ∙ a.same }

  -- The clusters that a chain can hold lie on the volume, and a cluster's size fits in 16 bits.
  pub record Clusters : Type 0 where
    pub some_size : 0 < p.cluster_size
    pub words : p.cluster_size < 2 ^ 16
    pub on_volume :
        (c : ℕ)
        → c < n
        → is_end c ≡ false
        → data_cluster_to_absolute_address p c + p.cluster_size ≤ size

  -- The bytes of cluster `c`.
  abbrev pub at : Disk → ℕ → Ram
  at s c i = vol s (data_cluster_to_absolute_address p c + i)

  pub skip_clusters-Walk :
      (k e : ℕ) (cs : List ℕ) (s : Disk)
      → IsReady s
      → Walk (table s) n e cs
      → k ≤ length cs
      → Gives (skip_clusters d alloc p k e s) (λ e' s'. Kept s s' × Walk (table s) n e' (drop k cs))
  unfolding skip_clusters
  skip_clusters-Walk zero e cs s ready walk enough =
      (e, s, refl, (record { ready = ready; same = refl }, walk))
  skip_clusters-Walk (suc k) e [] s ready walk enough = absurd (omega arith)
  skip_clusters-Walk (suc k) e (c ∷ cs) s ready (at_c, live, inside, rest) enough = rw at_c (
      after-Gives (get_fat_entry d alloc p c s) _
        (get_fat_entry-fat d t w alloc memory offset size p n l s c ready inside)
        (λ next s1 (kept, value).
          let walk1 : Walk (table s1) n next cs = rw (kept.same, value) rest in
          let (e', s2, run, (kept2, walk2)) =
            skip_clusters-Walk k next cs s1 kept.ready walk1 (omega arith) in
          (e', s2, run, (Kept-trans s s1 s2 kept kept2, rw (sym kept.same) walk2))))

  module _ (k_ : Clusters) where
    -- What a round moves, where `left` bytes are left.
    abbrev pub amount : (k left : ℕ) → ℕ
    amount zero left = 0
    amount (suc zero) left = left
    amount (suc (suc k)) left = p.cluster_size

    pub amount-le :
        (k left : ℕ)
        → Rounds p.cluster_size k left
        → (amount k left ≤ p.cluster_size) × (amount k left ≤ left)
    amount-le zero left r = (omega arith, omega arith)
    amount-le (suc zero) left r = (r.1, omega arith)
    amount-le (suc (suc k)) left r = (omega arith, omega arith)

    -- The bytes of the last round, as the source computes them.
    last_amount :
        (left size : ℕ)
        → 0 < left
        → left ≤ p.cluster_size
        → left % p.cluster_size ≡ size % p.cluster_size
        → (if size % p.cluster_size == 0 then p.cluster_size else size % p.cluster_size) ≡ left
    last_amount left size some_left small same = elim (lt-cases left p.cluster_size) [
      | inl part ↦
          let value : size % p.cluster_size ≡ left = sym same ∙ Nat.mod-eq_of_lt part in
          rw (value, ne→== left 0 (omega arith)) refl
      | inr whole ↦
          let e : left ≡ p.cluster_size = omega arith in
          let value : size % p.cluster_size ≡ 0 =
            sym same ∙ ap (λ x. x % p.cluster_size) e ∙ Nat.mod_self p.cluster_size in
          rw value (sym e)
    ]

    pub next_to_read-amount :
        (size pos k left : ℕ)
        → Rounds p.cluster_size (suc k) left
        → left % p.cluster_size ≡ size % p.cluster_size
        → add64 pos size % p.cluster_size ≡ size % p.cluster_size
        → next_to_read d alloc p size pos (suc k) ≡ amount (suc k) left
    unfolding next_to_read
    next_to_read-amount size pos zero left r same aligned =
        rw aligned (ap word16 (last_amount left size r.0 r.1 same) ∙ omega (arith, r.1, k_.words))
    next_to_read-amount size pos (suc k) left r same aligned =
        rw (ne→== (suc (suc k)) 1 (omega arith)) (omega (arith, k_.words))

    -- What the loop gives behind the `total` bytes that are there.
    pub record Loaded (s : Disk) (cs : List ℕ) (left total : ℕ) (out out' : Ram) (s' : Disk)
        : Type 0 where
      pub kept : Kept s s'
      pub before : (i : ℕ) → i < total → out' i ≡ out i
      pub bytes : (i : ℕ) → i < left → out' (total + i) ≡ contents p.cluster_size (at s) cs i

    copy_in-before :
        (out : Ram) (dest n : ℕ) (b : Ram) (i : ℕ) → i < dest → copy_in out dest n b i ≡ out i
    copy_in-before out dest n b i small = ground arith

    copy_in-inside :
        (out : Ram) (dest n : ℕ) (b : Ram) (i : ℕ) → i < n → copy_in out dest n b (dest + i) ≡ b i
    copy_in-inside out dest n b i small =
        let here : within dest n (dest + i) ≡ true = ground arith in rw here (ap b (omega arith))

    amount-whole :
        (k left i : ℕ) → amount (suc k) left ≤ i → i < left → amount (suc k) left ≡ p.cluster_size
    amount-whole zero left i behind small = absurd (omega arith)
    amount-whole (suc k) left i behind small = refl

    first_of :
        (c : ℕ) (cs : List ℕ) (s : Disk) (i : ℕ)
        → i < p.cluster_size
        → at s c i ≡ contents p.cluster_size (at s) (c ∷ cs) i
    unfolding contents
    first_of c cs s i small = rw (lt→ltb i p.cluster_size small) refl

    later_of :
        (c : ℕ) (cs : List ℕ) (s s2 : Disk) (i a : ℕ)
        → s2.medium ≡ s.medium
        → a ≡ p.cluster_size
        → a ≤ i
        → contents p.cluster_size (at s2) cs (i - a) ≡ contents p.cluster_size (at s) (c ∷ cs) i
    unfolding contents
    later_of c cs s s2 i a same whole behind = rw (le→ltb i p.cluster_size (omega arith)) (
        ap (λ m. contents p.cluster_size (at (record s { medium = m })) cs (i - a)) same
        ∙ ap (λ x. contents p.cluster_size (at s) cs (i - x)) whole)

    -- One round in front of the others.
    pub Loaded-cons :
        (s s1 s2 s3 : Disk) (k c : ℕ) (cs : List ℕ) (left total : ℕ) (out b out' : Ram)
        → Rounds p.cluster_size (suc k) left
        → Kept s s1
        → Kept s1 s2
        → ((i : ℕ) → i < amount (suc k) left → b i ≡ at s c i)
        → Loaded s2 cs
            (left - amount (suc k) left)
            (total + amount (suc k) left)
            (copy_in out total (amount (suc k) left) b)
            out'
            s3
        → Loaded s (c ∷ cs) left total out out' s3
    Loaded-cons s s1 s2 s3 k c cs left total out b out' r kept1 kept2 read rest =
        let a = amount (suc k) left in
        let le = amount-le (suc k) left r in
        let same : s2.medium ≡ s.medium = kept2.same ∙ kept1.same in
        record {
          kept = Kept-trans s s2 s3 (Kept-trans s s1 s2 kept1 kept2) rest.kept;
          before = λ i small.
              rest.before i (omega arith)
              ∙ copy_in-before out total (amount (suc k) left) b i small;
          bytes = λ i small. elim (lt-cases i a) [
            | inl here ↦
                rest.before (total + i) (omega arith)
                ∙ copy_in-inside out total a b i here
                ∙ read i here
                ∙ first_of c cs s i (omega (arith, le.0))
            | inr there ↦
                let whole = amount-whole k left i there small in
                ap out' (omega arith)
                ∙ rest.bytes (i - a) (omega arith)
                ∙ later_of c cs s s2 i a same whole (omega arith)
          ];
        }
