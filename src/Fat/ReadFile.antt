-- ===== src/Fat/ReadFile.antt =====
-- readFatFile as a whole.
use native.Mathlib.Nat
use boba_os.Base.{
  length-drop, ℕ, zero, suc, ◌+◌, ◌*◌, ◌/◌, ◌%◌, ◌^◌, ◌≤◌, ◌<◌, ◌≡◌, refl, ap, ◌∙◌, Ram, Bool, true,
  if◌then◌else◌, ◌==◌, List, length, drop, arith, inl, inr, le→ltb, lt→ltb, lt-cases, add64,
}
use boba_os.Stream.{Driver, Transfers}
use boba_os.Stream.Total.{Works}
use boba_os.Fat.{Disk, FatPrivate}
use boba_os.Fat.Ready.{Gives, after-Gives, Ready}
use boba_os.Fat.Table.{skip_clusters}
use boba_os.Fat.Table.Entries.{Layout, fat, Unchanged}
use boba_os.Fat.Table.Chains.{Walk}
use boba_os.Fat.Room.{FatFile}
use boba_os.Fat.Files.{word16, first_to_read, read_fat_file, clusters_for}
use boba_os.Fat.Contents.{contents, contents-drop, Rounds, count-Rounds, Rounds-fit}
use boba_os.Fat.Reading.{Clusters, at, skip_clusters-Walk}
use boba_os.Fat.ReadLoop.{Amount, read_loop-Loaded}

module _ (d : Driver) (t : Transfers d) (w : Works d) (alloc : ℕ → Bool)
    (memory : (n : ℕ) → alloc n ≡ true) (offset size : ℕ) (p : FatPrivate) (n : ℕ)
    (l : Layout d t w alloc memory offset size p n)
    (v : Clusters d t w alloc memory offset size p n l) where
  abbrev IsReady : Disk → Type 0
  IsReady = Ready d t w alloc memory offset size

  abbrev table : Disk → ℕ → ℕ
  table = fat d t w alloc memory offset size p n

  abbrev Kept : Disk → Disk → Type 0
  Kept = Unchanged d t w alloc memory offset size p n l

  -- The bytes of the clusters of a chain, one behind the other.
  abbrev file_bytes : Disk → List ℕ → Ram
  file_bytes s cs = contents p.cluster_size (at d t w alloc memory offset size p n l s) cs

  first-Amount :
      (k count pos : ℕ) (aligned : add64 pos count % p.cluster_size ≡ count % p.cluster_size)
      → Rounds p.cluster_size k count
      → Amount d t w alloc memory offset size p n l v count pos aligned k count
          (first_to_read d alloc p count)
  unfolding first_to_read
  first-Amount zero count pos aligned r = tt
  first-Amount (suc zero) count pos aligned r = elim (lt-cases count p.cluster_size) [
    | inl part ↦
        rw (lt→ltb count p.cluster_size part)
          (ap word16 (Nat.mod-eq_of_lt part) ∙ omega (arith, v.words))
    | inr whole ↦ rw (le→ltb count p.cluster_size whole) (omega (arith, r.1, v.words))
  ]
  first-Amount (suc (suc k)) count pos aligned r =
      rw (le→ltb count p.cluster_size (omega (arith, r.0))) (omega (arith, v.words))

  clusters_for-Rounds :
      (count : ℕ) → count < 2 ^ 31 → Rounds p.cluster_size (clusters_for count p.cluster_size) count
  clusters_for-Rounds count small =
      let le = Nat.div-le_self count p.cluster_size in
      let e : clusters_for count p.cluster_size
          ≡ count / p.cluster_size + (if count % p.cluster_size == 0 then 0 else 1) =
        ground (arith, le) in
      rw e (count-Rounds p.cluster_size count v.some_size)

  -- On a volume whose streams are ready, from a cluster whose chain is `cs` and ends, readFatFile
  -- of `count` bytes from the start of a cluster on, within the chain and below 2^31, succeeds and
  -- changes no byte of the medium: it gives the bytes of the chain from the position on.
  pub read_fat_file-contents :
      (file : FatFile) (cs : List ℕ) (count pos : ℕ) (s : Disk)
      → IsReady s
      → Walk (table s) n file.start_cluster cs
      → pos % p.cluster_size ≡ 0
      → pos + count ≤ length cs * p.cluster_size
      → pos + count < 2 ^ 31
      → Gives
          (read_fat_file d alloc p file count pos s)
          (λ out s'. Kept s s' × ((i : ℕ) → i < count → out i ≡ file_bytes s cs (pos + i)))
  unfolding read_fat_file
  read_fat_file-contents file cs count pos s ready walk aligned fits small =
      let q = pos / p.cluster_size in
      let le = Nat.div-le_self pos p.cluster_size in
      let whole : q * p.cluster_size ≡ pos =
        Nat.mul_comm q p.cluster_size
        ∙ omega (arith, Nat.mod-add-div pos p.cluster_size, aligned) in
      let skipped : q ≤ length cs = Nat.le_of_mul-le-mul_right (omega arith) v.some_size in
      let q_word : q % 2 ^ 32 ≡ q = omega arith in
      let sum : add64 pos count % p.cluster_size ≡ count % p.cluster_size =
        ap (λ x. x % p.cluster_size) (omega arith)
        ∙ Nat.mul-add-mod_self_right q p.cluster_size count in
      let k = clusters_for count p.cluster_size in
      let rounds = clusters_for-Rounds count (omega arith) in
      let enough : k ≤ length (drop q cs) = omega (
        arith,
        length-drop q cs,
        Rounds-fit p.cluster_size k count q (length cs) rounds (omega arith) v.some_size,
      ) in
      rw (q_word, aligned)
        (after-Gives (skip_clusters d alloc p q file.start_cluster s) _
          (skip_clusters-Walk d t w alloc memory offset size p n l q file.start_cluster cs s ready
            walk skipped)
          (λ e s1 (kept, walk1).
            let walk2 : Walk (table s1) n e (drop q cs) = rw kept.same walk1 in
            let (out, s2, run, loaded) =
              read_loop-Loaded d t w alloc memory offset size p n l v count pos sum k e count
                (first_to_read d alloc p count) 0 (λ i. 0) (drop q cs) s1 kept.ready walk2 enough
                rounds (first-Amount k count pos sum rounds) (inr refl) in
            (
              out,
              s2,
              run,
              (
                record { ready = loaded.kept.ready; same = loaded.kept.same ∙ kept.same },
                λ i inside.
                    ap out (omega arith)
                    ∙ loaded.bytes i inside
                    ∙ contents-drop p.cluster_size (at d t w alloc memory offset size p n l s1) q cs
                        i skipped
                    ∙ ap (λ m. file_bytes (record s { medium = m }) cs (q * p.cluster_size + i))
                        kept.same
                    ∙ ap (file_bytes s cs) (omega arith),
              ),
            )))
