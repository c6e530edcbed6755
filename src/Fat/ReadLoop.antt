-- ===== src/Fat/ReadLoop.antt =====
-- The loop of readFatFile.
use native.Mathlib.Nat
use boba_os.Base.{
  ℕ, zero, suc, ◌+◌, ◌-◌, ◌%◌, ◌≤◌, ◌≡◌, ◌⊎◌, refl, sym, ap, ◌∙◌, Ram, Bool, true, false, List, [],
  ◌∷◌, length, arith, inl, inr, add64,
}
use boba_os.Stream.{Driver, Transfers, copy_in}
use boba_os.Stream.Total.{Works}
use boba_os.Fat.{Disk, FatPrivate, is_end, pure, ◌>>=◌, seek_read, data_cluster_to_absolute_address}
use boba_os.Fat.Ready.{Gives, after-Gives, Ready, volume, seek_read-HasRead}
use boba_os.Fat.Table.{get_fat_entry}
use boba_os.Fat.Table.Entries.{Layout, fat, get_fat_entry-fat}
use boba_os.Fat.Table.Chains.{Walk}
use boba_os.Fat.Files.{next_to_read, read_loop}
use boba_os.Fat.Contents.{Rounds}
use boba_os.Fat.Reading.{Clusters, amount, amount-le, next_to_read-amount, Loaded, Loaded-cons}

module _ (d : Driver) (t : Transfers d) (w : Works d) (alloc : ℕ → Bool)
    (memory : (n : ℕ) → alloc n ≡ true) (offset size : ℕ) (p : FatPrivate) (n : ℕ)
    (l : Layout d t w alloc memory offset size p n)
    (k_ : Clusters d t w alloc memory offset size p n l) where
  abbrev IsReady : Disk → Type 0
  IsReady = Ready d t w alloc memory offset size

  abbrev vol : Disk → Ram
  vol = volume d t w alloc memory offset size

  abbrev table : Disk → ℕ → ℕ
  table = fat d t w alloc memory offset size p n

  module _ (size_ pos : ℕ)
      (aligned : add64 pos size_ % p.cluster_size ≡ size_ % p.cluster_size) where
    read_loop-go :
        (k cluster to_read total : ℕ) (out : Ram) (s : Disk)
        → is_end cluster ≡ false
        → read_loop d alloc p size_ pos (suc k) cluster 0 to_read total out s
          ≡ (seek_read d alloc (data_cluster_to_absolute_address p cluster + 0) to_read >>= λ b.
                (get_fat_entry d alloc p cluster >>= λ next.
                read_loop d alloc p size_ pos k next 0
                  (next_to_read d alloc p size_ pos k)
                  (total + to_read)
                  (copy_in out total to_read b)))
              s
    unfolding read_loop
    read_loop-go k cluster to_read total out s live = rw (read_loop, live) refl

    read_loop-done :
        (cluster to_read total : ℕ) (out : Ram) (s : Disk)
        → read_loop d alloc p size_ pos 0 cluster 0 to_read total out s ≡ pure out s
    unfolding read_loop
    read_loop-done cluster to_read total out s = refl

    -- How much the next round reads. Without a next round it does not matter.
    abbrev pub Amount : (k left to_read : ℕ) → Type 0
    Amount zero left to_read = Unit {0}
    Amount (suc k) left to_read =
        to_read ≡ amount d t w alloc memory offset size p n l k_ (suc k) left

    next-Amount :
        (k left : ℕ)
        → Rounds p.cluster_size (suc k) left
        → left % p.cluster_size ≡ size_ % p.cluster_size
        → Rounds p.cluster_size k
            (left - amount d t w alloc memory offset size p n l k_ (suc k) left)
          × Amount k
              (left - amount d t w alloc memory offset size p n l k_ (suc k) left)
              (next_to_read d alloc p size_ pos k)
          × ((k ≡ 0)
              ⊎ ((left - amount d t w alloc memory offset size p n l k_ (suc k) left)
                    % p.cluster_size
                  ≡ size_ % p.cluster_size))
    next-Amount zero left r same = (omega arith, tt, inl refl)
    next-Amount (suc k) left r same =
        let rest = sym (Nat.mod-eq-sub-mod (omega (arith, r.0))) ∙ same in
        (
          r.1,
          next_to_read-amount d t w alloc memory offset size p n l k_ size_ pos k
              (left - p.cluster_size) r.1 rest aligned,
          inr rest,
        )

    pub read_loop-Loaded :
        (k e left to_read total : ℕ) (out : Ram) (cs : List ℕ) (s : Disk)
        → IsReady s
        → Walk (table s) n e cs
        → k ≤ length cs
        → Rounds p.cluster_size k left
        → Amount k left to_read
        → (k ≡ 0) ⊎ (left % p.cluster_size ≡ size_ % p.cluster_size)
        → Gives
            (read_loop d alloc p size_ pos k e 0 to_read total out s)
            (Loaded d t w alloc memory offset size p n l k_ s cs left total out)
    read_loop-Loaded zero e left to_read total out cs s ready walk enough r a m = (
      out,
      s,
      read_loop-done e to_read total out s,
      record {
        kept = record { ready = ready; same = refl };
        before = λ i small. refl;
        bytes = λ i small. absurd (omega (arith, r));
      },
    )
    read_loop-Loaded (suc k) e left to_read total out [] s ready walk enough r a m =
        absurd (omega arith)
    read_loop-Loaded (suc k) e left to_read total out (c ∷ cs) s ready (at_c, live, inside, rest)
          enough r a m =
        let fits = k_.on_volume c inside live in
        let le = amount-le d t w alloc memory offset size p n l k_ (suc k) left r in
        let A = data_cluster_to_absolute_address p c in
        let left_same : left % p.cluster_size ≡ size_ % p.cluster_size = elim m [
          | inl no_round ↦ absurd (omega arith)
          | inr e ↦ e
        ] in
        rw (at_c, read_loop-go k c to_read total out s live, a)
          (after-Gives
            (seek_read d alloc (A + 0) (amount d t w alloc memory offset size p n l k_ (suc k) left)
              s)
            _
            (seek_read-HasRead d t w alloc memory offset size (A + 0)
              (amount d t w alloc memory offset size p n l k_ (suc k) left)
              (omega (arith, k_.words)) (omega (arith, k_.some_size)) (omega arith) s ready)
            (λ b s1 read.
              after-Gives (get_fat_entry d alloc p c s1) _
                (get_fat_entry-fat d t w alloc memory offset size p n l s1 c read.ready inside)
                (λ next s2 (kept, value).
                  let same : s2.medium ≡ s.medium = kept.same ∙ read.same in
                  let walk : Walk (table s2) n next cs =
                    rw (value ∙ ap (λ m. table (record s { medium = m }) c) read.same)
                      (rw same rest) in
                  let (rounds, a', m') = next-Amount k left r left_same in
                  let (out', s3, run, loaded) =
                    read_loop-Loaded k next
                      (left - amount d t w alloc memory offset size p n l k_ (suc k) left)
                      (next_to_read d alloc p size_ pos k)
                      (total + amount d t w alloc memory offset size p n l k_ (suc k) left)
                      (copy_in out total
                        (amount d t w alloc memory offset size p n l k_ (suc k) left) b)
                      cs s2 kept.ready walk (omega arith) rounds a' m' in
                  (
                    out',
                    s3,
                    run,
                    Loaded-cons d t w alloc memory offset size p n l k_ s s1 s2 s3 k c cs left total
                        out b out' r (record { ready = read.ready; same = read.same }) kept
                        (λ i small. read.bytes i small ∙ ap (vol s) (omega arith)) loaded,
                  ))))
