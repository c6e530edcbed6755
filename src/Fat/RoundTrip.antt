-- ===== src/Fat/RoundTrip.antt =====
-- A read gives what a write has stored.
use native.Mathlib.Nat
use boba_os.Base.{
  ℕ, suc, ◌+◌, ◌-◌, ◌*◌, ◌%◌, ◌≤◌, ◌<◌, ◌≡◌, refl, ap, ◌∙◌, Ram, Bool, true, if◌then◌else◌, List,
  [], ◌∷◌, length, drop, arith, lt→ltb, eq→==,
}
use boba_os.Memory.Copy.{within}
use boba_os.Stream.{Driver, Transfers}
use boba_os.Stream.Total.{Works}
use boba_os.Fat.{Disk, FatPrivate, is_end, fat_entry_used, ◌>>◌, data_cluster_to_absolute_address}
use boba_os.Fat.Ready.{Gives, after-Gives, Ready}
use boba_os.Fat.Table.Entries.{Layout, fat}
use boba_os.Fat.Table.Chains.{Walk}
use boba_os.Fat.Room.{FatFile}
use boba_os.Fat.Files.{read_fat_file, write_fat_file}
use boba_os.Fat.Contents.{contents}
use boba_os.Fat.Reading.{Clusters, at}
use boba_os.Fat.ReadFile.{read_fat_file-contents}
use boba_os.Fat.Writing.{write_fat_file-Written}

contents-first :
    (size : ℕ) (at : ℕ → Ram) (c i : ℕ) → i < size → contents size at (c ∷ []) (0 + i) ≡ at c i
unfolding contents
contents-first size at c i small =
    let e : 0 + i ≡ i = omega arith in rw (e, lt→ltb i size small) refl

inside_here :
    (address start i count : ℕ) (bytes : Ram) (old : ℕ)
    → start ≡ 0
    → i < count
    → (if within (address + start) count (address + i)
        then bytes (address + i - (address + start))
        else old)
      ≡ bytes i
inside_here address start i count bytes old e small =
    let here : within (address + start) count (address + i) ≡ true = ground arith in
    rw here (ap bytes (omega arith))

module _ (d : Driver) (t : Transfers d) (w : Works d) (alloc : ℕ → Bool)
    (memory : (n : ℕ) → alloc n ≡ true) (offset size : ℕ) (p : FatPrivate) (n : ℕ)
    (l : Layout d t w alloc memory offset size p n)
    (v : Clusters d t w alloc memory offset size p n l) where
  -- On a volume whose streams are ready, for a file whose chain ends and whose first cluster lies
  -- behind the tables, a write of `count` bytes to its start, at least one and at most a cluster,
  -- with at most `rounds` clusters in the chain, and then a read of as many bytes from its start,
  -- both succeed, and the read gives the bytes that were written.
  pub read_fat_file-write_fat_file :
      (file : FatFile) (c : ℕ) (rest : List ℕ) (rounds count : ℕ) (bytes : Ram) (s : Disk)
      → Ready d t w alloc memory offset size s
      → Walk (fat d t w alloc memory offset size p n s) n file.start_cluster (c ∷ rest)
      → 0 < count
      → count ≤ p.cluster_size
      → p.fat_copy_start_address + 4 * n ≤ data_cluster_to_absolute_address p c
      → suc (length rest) ≤ rounds
      → Gives
          ((write_fat_file d alloc p rounds file count 0 bytes
              >> read_fat_file d alloc p file count 0)
            s)
          (λ out s'. (i : ℕ) → i < count → out i ≡ bytes i)
  read_fat_file-write_fat_file file c rest rounds count bytes s ready walk some_bytes fits behind
        enough =
      let none_inside = Nat.zero-mod p.cluster_size in
      let none_before = Nat.zero-div p.cluster_size in
      let fits' : 0 % p.cluster_size + count ≤ p.cluster_size = omega (arith, none_inside) in
      after-Gives (write_fat_file d alloc p rounds file count 0 bytes s) _
        (write_fat_file-Written d t w alloc memory offset size p n l v file (c ∷ rest) rounds count
          0 c rest bytes s ready walk some_bytes fits' (omega arith) (omega (arith, none_before))
          (ap (λ q. drop q (c ∷ rest)) none_before) behind enough)
        (λ u s1 written.
          let ended : fat d t w alloc memory offset size p n s1 c ≡ fat_entry_used =
            written.in_table c walk.2 ∙ rw (eq→== c c refl) refl in
          let walk1 : Walk (fat d t w alloc memory offset size p n s1) n file.start_cluster
              (c ∷ []) =
            (walk.0, walk.1, walk.2, ap is_end ended) in
          let (out, s2, run, (kept, out_bytes)) =
            read_fat_file-contents d t w alloc memory offset size p n l v file (c ∷ []) count 0 s1
              written.ready walk1 none_inside (omega arith) (omega (arith, v.words)) in
          (
            out,
            s2,
            run,
            λ i small.
                out_bytes i small
                ∙ contents-first p.cluster_size (at d t w alloc memory offset size p n l s1) c i
                    (omega arith)
                ∙ written.stored (data_cluster_to_absolute_address p c + i)
                    (ground (arith, l.copy_behind)) (ground (arith, l.copy_behind))
                ∙ inside_here (data_cluster_to_absolute_address p c) (0 % p.cluster_size) i count
                    bytes _ none_inside small,
          ))
