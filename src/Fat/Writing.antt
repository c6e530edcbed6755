-- ===== src/Fat/Writing.antt =====
-- writeFatFile inside one cluster of a chain.
use native.Mathlib.Nat
use boba_os.Base.{
  length-drop, ℕ, zero, suc, ◌+◌, ◌-◌, ◌*◌, ◌/◌, ◌%◌, ◌^◌, ◌≤◌, ◌<◌, ◌≡◌, refl, sym, ap, ◌∙◌, Ram,
  Bool, true, false, if◌then◌else◌, ◌==◌, List, ◌∷◌, length, drop, arith, inl, inr, le→ltb, ne→==,
  lt-cases, add64, Bool-cases,
}
use boba_os.Memory.Copy.{within}
use boba_os.Stream.{Driver, Transfers}
use boba_os.Stream.Total.{Works}
use boba_os.Fat.{
  Disk, FatPrivate, is_end, fat_entry_used, pure, ◌>>=◌, ◌>>◌, seek_write,
  data_cluster_to_absolute_address,
}
use boba_os.Fat.Ready.{Gives, after-Gives, Ready, volume, seek_write-HasWritten}
use boba_os.Fat.Table.{get_fat_entry, unlink_fat_chain}
use boba_os.Fat.Table.Entries.{Layout, fat, Unchanged, get_fat_entry-fat}
use boba_os.Fat.Table.Words.{le32-eq}
use boba_os.Fat.Table.Chains.{Walk, member}
use boba_os.Fat.Table.Unlink.{Unlinked, unlink_fat_chain-Unlinked}
use boba_os.Fat.Room.{FatFile}
use boba_os.Fat.Files.{
  word16, clusters_for, skip_loop, first_to_write, first_amount, grow_chain, write_loop,
  write_fat_file,
}
use boba_os.Fat.Skipping.{next-Walk, same-Unlinked, skip_loop-Found}
use boba_os.Fat.Contents.{Rounds, count-Rounds}
use boba_os.Fat.Reading.{Clusters}

module _ (d : Driver) (t : Transfers d) (w : Works d) (alloc : ℕ → Bool)
    (memory : (n : ℕ) → alloc n ≡ true) (offset size : ℕ) (p : FatPrivate) (n : ℕ)
    (l : Layout d t w alloc memory offset size p n)
    (v : Clusters d t w alloc memory offset size p n l) where
  abbrev IsReady : Disk → Type 0
  IsReady = Ready d t w alloc memory offset size

  abbrev vol : Disk → Ram
  vol = volume d t w alloc memory offset size

  abbrev table : Disk → ℕ → ℕ
  table = fat d t w alloc memory offset size p n

  abbrev Kept : Disk → Disk → Type 0
  Kept = Unchanged d t w alloc memory offset size p n l

  one_Round : (k left : ℕ) → Rounds p.cluster_size k left → 0 < left → left ≤ p.cluster_size → k ≡ 1
  one_Round zero left r some_left small = absurd (omega arith)
  one_Round (suc zero) left r some_left small = refl
  one_Round (suc (suc k)) left r some_left small = absurd (omega (arith, r.0))

  module _ (count inside : ℕ) (some_bytes : 0 < count)
      (fits : inside + count ≤ p.cluster_size) where
    clusters_for-one : clusters_for (add64 inside count) p.cluster_size ≡ 1
    clusters_for-one =
        let m : add64 inside count ≡ inside + count = omega (arith, v.words) in
        let q = (inside + count) / p.cluster_size in
        let e : q + (if (inside + count) % p.cluster_size == 0 then 0 else 1) ≡ 1 =
          one_Round _ (inside + count) (count-Rounds p.cluster_size (inside + count) v.some_size)
            (omega arith) fits in
        let small : q ≤ 1 = omega arith in
        rw m (
          ap (λ x. (x + (if (inside + count) % p.cluster_size == 0 then 0 else 1)) % 2 ^ 32)
            (omega arith)
          ∙ ap (λ x. x % 2 ^ 32) e)

    first_amount-count : first_amount d alloc p count inside ≡ count
    unfolding first_amount
    first_amount-count = elim (lt-cases count p.cluster_size) [
      | inl part ↦
          let value : count % p.cluster_size ≡ count = Nat.mod-eq_of_lt part in
          let word : word16 (count % p.cluster_size) ≡ count =
            ap word16 value ∙ omega (arith, v.words) in
          rw
            (
              word,
              ne→== count 0 (omega arith),
              le→ltb p.cluster_size (count + inside) (omega arith),
            )
            refl
      | inr whole ↦
          let e : count ≡ p.cluster_size = omega arith in
          let value : word16 (count % p.cluster_size) ≡ 0 =
            ap (λ x. word16 (x % p.cluster_size)) e ∙ ap word16 (Nat.mod_self p.cluster_size) in
          let word : word16 p.cluster_size ≡ count = omega (arith, v.words) in
          rw (value, word, le→ltb p.cluster_size (count + inside) (omega arith)) refl
    ]

    -- What a write inside one cluster leaves: its bytes, and the chain cut off behind the cluster.
    pub record Written (c : ℕ) (rest : List ℕ) (bytes : Ram) (s s' : Disk) : Type 0 where
      pub ready : IsReady s'
      pub in_table :
          (x : ℕ)
          → x < n
          → table s' x ≡ (if x == c then fat_entry_used else if member x rest then 0 else table s x)
      pub stored :
          (a : ℕ)
          → within p.fat_address (4 * n) a ≡ false
          → within p.fat_copy_start_address (4 * n) a ≡ false
          → vol s' a ≡ (
              if within (data_cluster_to_absolute_address p c + inside) count a
              then bytes (a - (data_cluster_to_absolute_address p c + inside))
              else vol s a)

    write_loop-one :
        (bytes : Ram) (c amount : ℕ) (s : Disk)
        → write_loop d alloc p count bytes 1 c c inside amount 0 s
          ≡ (seek_write d alloc
                  (data_cluster_to_absolute_address p c + inside)
                  (λ i. bytes (0 + i))
                  amount
                >> (get_fat_entry d alloc p c >>= λ next. pure tt))
              s
    unfolding write_loop grow_chain
    write_loop-one bytes c amount s = refl

    module _ (c : ℕ) (rest : List ℕ) (bytes : Ram) (below : c < n) (live : is_end c ≡ false)
        (behind : p.fat_copy_start_address + 4 * n ≤ data_cluster_to_absolute_address p c) where
      abbrev address : ℕ
      address = data_cluster_to_absolute_address p c + inside

      stored-Written :
          (s s1 s2 s3 : Disk)
          → Unlinked d t w alloc memory offset size p n l c rest s s1
          → IsReady s3
          → ((a : ℕ)
              → vol s2 a ≡ (if within address count a then bytes (0 + (a - address)) else vol s1 a))
          → s3.medium ≡ s2.medium
          → Written c rest bytes s s3
      stored-Written s s1 s2 s3 u ready stored same =
          let outside : (a : ℕ) → a < p.fat_copy_start_address + 4 * n → vol s3 a ≡ vol s1 a =
            λ a low.
              let off : within address count a ≡ false = ground arith in
              ap (λ m. m (offset + a)) same ∙ stored a ∙ rw off refl in
          record {
            ready = ready;
            in_table = λ x small.
                ap (λ y. y % 2 ^ 28)
                  (le32-eq (vol s3) (vol s1) (p.fat_address + 4 * x) (p.fat_address + 4 * x)
                    (outside _ (omega (arith, l.copy_behind)))
                    (outside _ (omega (arith, l.copy_behind)))
                    (outside _ (omega (arith, l.copy_behind)))
                    (outside _ (omega (arith, l.copy_behind))))
                ∙ u.in_table x small;
            stored = λ a off_table off_copy.
                ap (λ m. m (offset + a)) same
                ∙ stored a
                ∙ elim (Bool-cases (within address count a)) [
                  | inl here ↦ rw here (ap bytes (omega arith))
                  | inr off ↦ rw off (u.others a off_table off_copy)
                ];
          }

      write_loop-Written :
          (s s1 : Disk)
          → Unlinked d t w alloc memory offset size p n l c rest s s1
          → Gives
              (write_loop d alloc p count bytes 1 c c inside count 0 s1)
              (λ _. Written c rest bytes s)
      write_loop-Written s s1 u =
          let cluster_fits = v.on_volume c below live in
          rw (write_loop-one bytes c count s1) (
            after-Gives (seek_write d alloc address (λ i. bytes (0 + i)) count s1) _
              (seek_write-HasWritten d t w alloc memory offset size address count
                (omega (arith, v.words)) (omega arith) (omega arith) s1 (λ i. bytes (0 + i))
                u.ready)
              (λ x s2 written.
                after-Gives (get_fat_entry d alloc p c s2) _
                  (get_fat_entry-fat d t w alloc memory offset size p n l s2 c written.ready below)
                  (λ next s3 (kept, value). (
                    tt,
                    s3,
                    refl,
                    stored-Written s s1 s2 s3 u kept.ready written.stored kept.same,
                  ))))

  -- On a volume whose streams are ready, writeFatFile of `count` bytes, at least one, to position
  -- `pos` of a file whose chain `cs` ends, inside the cluster `c` of the chain that holds the
  -- position, with `c` behind the tables and at most `rounds` clusters in the chain, succeeds: the
  -- bytes stand there, no other byte outside the tables changes, and in the table the chain ends
  -- at `c`, the clusters behind it are free, and all other entries keep their values.
  pub write_fat_file-Written :
      (file : FatFile) (cs : List ℕ) (rounds count pos c : ℕ) (rest : List ℕ) (bytes : Ram)
      (s : Disk)
      → (ready : IsReady s) → Walk (table s) n file.start_cluster cs
      → (some_bytes : 0 < count) → (fits : pos % p.cluster_size + count ≤ p.cluster_size)
      → pos < 2 ^ 32
      → pos / p.cluster_size < length cs
      → drop (pos / p.cluster_size) cs ≡ c ∷ rest
      → p.fat_copy_start_address + 4 * n ≤ data_cluster_to_absolute_address p c
      → length cs ≤ rounds
      → Gives
          (write_fat_file d alloc p rounds file count pos bytes s)
          (λ _. Written count (pos % p.cluster_size) some_bytes fits c rest bytes s)
  unfolding write_fat_file first_to_write
  write_fat_file-Written file cs rounds count pos c rest bytes s ready walk some_bytes fits small
        within_chain chain behind enough =
      let q = pos / p.cluster_size in
      let q_word : q % 2 ^ 32 ≡ q = omega (arith, Nat.div-le_self pos p.cluster_size) in
      rw q_word (
        after-Gives (skip_loop d alloc p q file.start_cluster file.start_cluster s) _
          (skip_loop-Found d t w alloc memory offset size p n l q file.start_cluster
            file.start_cluster cs s ready walk within_chain)
          (λ r s1 (kept, found).
            let (none_left, rest', chain', below, live, walk') = found in
            let both = sym chain' ∙ chain in
            let head : r.0 ≡ c = cc both in
            let tail : rest' ≡ rest = cc both in
            let below' : c < n = omega (arith, head, below) in
            let live' : is_end c ≡ false = ap is_end (sym head) ∙ live in
            let walk_c : Walk (table s) n (table s c) rest = rw (sym head, sym tail) walk' in
            let walk1 =
              next-Walk d t w alloc memory offset size p n l s s1 (table s1 c) c rest kept
                (ap (λ m. table (record s { medium = m }) c) kept.same) walk_c in
            let short : length rest ≤ rounds = omega (arith, length-drop q cs, ap length chain) in
            rw
              (
                none_left,
                head,
                clusters_for-one count (pos % p.cluster_size) some_bytes fits,
                first_amount-count count (pos % p.cluster_size) some_bytes fits,
              )
              (after-Gives (unlink_fat_chain d alloc p rounds c s1) _
                (unlink_fat_chain-Unlinked d t w alloc memory offset size p n l rest rounds c s1
                  kept.ready below' walk1 short)
                (λ u s2 unlinked.
                  write_loop-Written count (pos % p.cluster_size) some_bytes fits c rest bytes
                    below' live' behind s s2
                    (same-Unlinked d t w alloc memory offset size p n l c rest s s1 s2 kept
                      unlinked)))))
