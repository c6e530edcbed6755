-- ===== src/Fat/Files.antt =====
-- fat32.c: the bytes of a file.
use boba_os.Base.{
  ℕ, zero, suc, ◌+◌, ◌-◌, ◌/◌, ◌%◌, ◌^◌, Ram, Bool, true, false, if◌then◌else◌, ltb, ◌==◌, Errno,
  add64,
}
use boba_os.Stream.{Driver, copy_in}
use boba_os.Fat.{
  Act, ◌>>=◌, ◌>>◌, pure, fail, attempt, FatPrivate, fat_entry_used, is_end, seek_read, seek_write,
  data_cluster_to_absolute_address,
}
use boba_os.Fat.Table.{
  get_fat_entry, get_free_fat_entry_cluster, write_fat_entry, unlink_fat_chain, skip_clusters,
}
use boba_os.Fat.Room.{FatFile}

-- A uint16_t.
abbrev pub word16 : ℕ → ℕ
word16 n = n % 2 ^ 16

-- `n / size`, rounded up: a uint32_t.
abbrev pub clusters_for : (n size : ℕ) → ℕ
clusters_for n size = ((n / size) % 2 ^ 32 + (if n % size == 0 then 0 else 1)) % 2 ^ 32

module _ (d : Driver) (alloc : ℕ → Bool) (p : FatPrivate) where
  -- How much the next round reads, where `left` rounds are left.
  unfoldable pub next_to_read : (size pos left : ℕ) → ℕ
  next_to_read size pos left =
      if left == 1
      then word16
          (if add64 pos size % p.cluster_size == 0 then p.cluster_size else size % p.cluster_size)
      else word16 p.cluster_size

  -- The loop of readFatFile with `k` rounds left. The next round reads `to_read` bytes from
  -- offset `inside` of the cluster on.
  unfoldable pub read_loop :
      (size pos : ℕ) (k cluster inside to_read total : ℕ) (out : Ram) → Act Ram
  read_loop size pos zero cluster inside to_read total out = pure out
  read_loop size pos (suc k) cluster inside to_read total out = elim (is_end cluster) [
    | true ↦ fail Errno.efsystem
    | false ↦
        seek_read d alloc (data_cluster_to_absolute_address p cluster + inside) to_read >>= λ b.
        (get_fat_entry d alloc p cluster >>= λ next.
        read_loop size pos k next 0 (next_to_read size pos k) (total + to_read)
          (copy_in out total to_read b))
  ]

  unfoldable pub first_to_read : (size : ℕ) → ℕ
  first_to_read size =
      if ltb size p.cluster_size then word16 (size % p.cluster_size) else word16 p.cluster_size

  unfoldable pub read_fat_file : FatFile → (size pos : ℕ) → Act Ram
  read_fat_file file size pos =
      skip_clusters d alloc p (pos / p.cluster_size % 2 ^ 32) file.start_cluster >>= λ cluster.
      read_loop size pos (clusters_for size p.cluster_size) cluster (pos % p.cluster_size)
        (first_to_read size) 0 (λ i. 0)

  -- The loop of writeFatFile that skips clusters: the last cluster that it has seen, and how many
  -- are still to skip.
  unfoldable pub skip_loop : (count old entry : ℕ) → Act (ℕ × ℕ)
  skip_loop zero old entry = pure (if is_end entry then old else entry, 0)
  skip_loop (suc count) old entry = get_fat_entry d alloc p entry >>= λ next. elim (is_end next) [
    | true ↦ pure (entry, suc count)
    | false ↦ skip_loop count entry next
  ]

  -- The first cluster to write to. With one cluster to skip, a new one is linked behind the last.
  unfoldable pub first_to_write : (old left : ℕ) → Act ℕ
  first_to_write old zero = pure old
  first_to_write old (suc zero) = do
    cluster ← get_free_fat_entry_cluster d alloc p
    write_fat_entry d alloc p old cluster
    write_fat_entry d alloc p cluster fat_entry_used
    pure cluster
  first_to_write old (suc (suc left)) = fail Errno.enfound

  -- How much the first round writes.
  unfoldable pub first_amount : (size inside : ℕ) → ℕ
  first_amount size inside =
      let rest = word16 (size % p.cluster_size) in
      let amount = if rest == 0 then word16 p.cluster_size else rest in
      if ltb p.cluster_size (amount + inside)
      then word16 (amount + 2 ^ 32 - (amount + inside) % p.cluster_size)
      else amount

  -- A new cluster behind `old`, where the chain has ended and there is more to write. The results
  -- of both writes to the table are dropped.
  unfoldable pub grow_chain : (last : Bool) (old next : ℕ) → Act (ℕ × ℕ)
  grow_chain true old next = pure (old, next)
  grow_chain false old next = elim (next == fat_entry_used) [
    | false ↦ pure (old, next)
    | true ↦ get_free_fat_entry_cluster d alloc p >>= λ cluster.
        (attempt (write_fat_entry d alloc p old cluster) >>= λ r1.
        (attempt (write_fat_entry d alloc p cluster fat_entry_used) >>= λ r2.
        pure (cluster, cluster)))
  ]

  -- The loop of writeFatFile with `k` rounds left.
  unfoldable pub write_loop :
      (size : ℕ) (bytes : Ram) (k old cluster inside amount total : ℕ) → Act (Unit {0})
  write_loop size bytes zero old cluster inside amount total = pure tt
  write_loop size bytes (suc k) old cluster inside amount total =
      seek_write d alloc (data_cluster_to_absolute_address p cluster + inside)
        (λ i. bytes (total + i)) amount
      >> (get_fat_entry d alloc p cluster >>= λ next.
          (grow_chain (k == 0) old next >>= λ grown.
          (let total' = total + amount in
            write_loop size bytes k grown.0 grown.1 0
              (if k == 1 then word16 (size + 2 ^ 16 - total' % 2 ^ 16) else word16 p.cluster_size)
              total')))

  unfoldable pub write_fat_file :
      (rounds : ℕ) → FatFile → (size pos : ℕ) → (bytes : Ram) → Act (Unit {0})
  write_fat_file rounds file size pos bytes = do
    let inside = pos % p.cluster_size
    skipped ← skip_loop (pos / p.cluster_size % 2 ^ 32) file.start_cluster file.start_cluster
    first ← first_to_write skipped.0 skipped.1
    unlink_fat_chain d alloc p rounds first
    write_loop size bytes (clusters_for (add64 inside size) p.cluster_size) first first inside
        (first_amount size inside) 0
