-- ===== src/Fat/Table/Entries.antt =====
-- What getFatEntry and writeFATEntry do to the allocation table and to its copy.
use boba_os.Base.{
  ℕ, ◌+◌, ◌*◌, ◌%◌, ◌^◌, ◌≤◌, ◌<◌, ◌≡◌, ◌≢◌, refl, ap, ◌∙◌, Ram, Bool, true, false, if◌then◌else◌,
  ◌==◌, arith, Bool-cases, inl, inr, ==→eq, ==→ne,
}
use boba_os.Memory.Copy.{within}
use boba_os.Stream.{Driver, Transfers}
use boba_os.Stream.Total.{Works}
use boba_os.Fat.{
  Disk, FatPrivate, le32, bytes32, cluster_to_fat_table_address, cluster_to_fat_copy_table_address,
  seek_read, seek_write,
}
use boba_os.Fat.Ready.{Gives, after-Gives, Ready, volume, seek_read-HasRead, seek_write-HasWritten}
use boba_os.Fat.Table.{masked, get_fat_entry, write_fat_entry}
use boba_os.Fat.Table.Words.{Stored, Stored-outside, le32-eq, le32-Stored, le32-apart}

module _ (d : Driver) (t : Transfers d) (w : Works d) (alloc : ℕ → Bool)
    (memory : (n : ℕ) → alloc n ≡ true) (offset size : ℕ) (p : FatPrivate) (n : ℕ) where
  abbrev IsReady : Disk → Type 0
  IsReady = Ready d t w alloc memory offset size

  abbrev vol : Disk → Ram
  vol = volume d t w alloc memory offset size

  -- The table and its copy hold `n` entries each, one behind the other on the volume.
  pub record Layout : Type 0 where
    pub copy_behind : p.fat_address + 4 * n ≤ p.fat_copy_start_address
    pub on_volume : p.fat_copy_start_address + 4 * n ≤ size
    pub words : p.fat_copy_start_address + 4 * n < 2 ^ 32

  -- The entries of the table, and of its copy.
  abbrev pub fat : Disk → ℕ → ℕ
  fat s c = le32 (vol s) (p.fat_address + 4 * c) % 2 ^ 28

  abbrev pub fat_copy : Disk → ℕ → ℕ
  fat_copy s c = le32 (vol s) (p.fat_copy_start_address + 4 * c) % 2 ^ 28

  module _ (l : Layout) where
    -- What a read that changes nothing leaves.
    pub record Unchanged (s s' : Disk) : Type 0 where
      pub ready : IsReady s'
      pub same : s'.medium ≡ s.medium

    pub get_fat_entry-fat :
        (s : Disk) (c : ℕ)
        → IsReady s
        → c < n
        → Gives (get_fat_entry d alloc p c s) (λ v s'. Unchanged s s' × (v ≡ fat s c))
    unfolding get_fat_entry
    get_fat_entry-fat s c v inside =
        after-Gives (seek_read d alloc (c * 4 + p.fat_address) 4 s) _
          (seek_read-HasRead d t w alloc memory offset size (c * 4 + p.fat_address) 4 (omega arith)
            (omega (arith, l.copy_behind, l.on_volume)) (omega (arith, l.copy_behind, l.on_volume))
            s v)
          (λ out s' r. (
            masked out 0,
            s',
            refl,
            (
              record { ready = r.ready; same = r.same },
              ap (λ x. x % 2 ^ 28)
                  (le32-eq out (vol s) 0 (p.fat_address + 4 * c)
                    (r.bytes 0 (omega arith) ∙ ap (vol s) (omega arith))
                    (r.bytes 1 (omega arith) ∙ ap (vol s) (omega arith))
                    (r.bytes 2 (omega arith) ∙ ap (vol s) (omega arith))
                    (r.bytes 3 (omega arith) ∙ ap (vol s) (omega arith))),
            ),
          ))

    -- What a write of `v` to entry `c` leaves.
    pub record Entered (c v : ℕ) (s s' : Disk) : Type 0 where
      pub ready : IsReady s'
      pub table : (e : ℕ) → e < n → fat s' e ≡ (if e == c then v % 2 ^ 28 else fat s e)
      pub copy : (e : ℕ) → e < n → fat_copy s' e ≡ (if e == c then v % 2 ^ 28 else fat_copy s e)
      pub others :
          (a : ℕ)
          → within p.fat_address (4 * n) a ≡ false
          → within p.fat_copy_start_address (4 * n) a ≡ false
          → vol s' a ≡ vol s a

    module _ (start : ℕ) (c v : ℕ) (m m' : Ram)
        (stored : Stored m (start + 4 * c) (bytes32 v) m') where
      word-same : v < 2 ^ 32 → (e : ℕ) → e ≡ c → le32 m' (start + 4 * e) ≡ v
      word-same small e same =
          ap (λ x. le32 m' (start + 4 * x)) same ∙ le32-Stored m (start + 4 * c) v m' small stored

      word-apart : (e : ℕ) → e ≢ c → le32 m' (start + 4 * e) ≡ le32 m (start + 4 * e)
      word-apart e other =
          le32-apart m (start + 4 * c) (bytes32 v) m' (start + 4 * e) stored
            (λ k inside. ground arith)

      words-set :
          v < 2 ^ 32
          → (e : ℕ)
          → le32 m' (start + 4 * e) % 2 ^ 28
            ≡ (if e == c then v % 2 ^ 28 else le32 m (start + 4 * e) % 2 ^ 28)
      words-set small e = elim (Bool-cases (e == c)) [
        | inl same ↦ rw same (ap (λ x. x % 2 ^ 28) (word-same small e (==→eq e c same)))
        | inr other ↦ rw other (ap (λ x. x % 2 ^ 28) (word-apart e (==→ne e c other)))
      ]

      word-elsewhere :
          (a : ℕ)
          → ((k : ℕ) → k < 4 → within (start + 4 * c) 4 (a + k) ≡ false)
          → le32 m' a % 2 ^ 28 ≡ le32 m a % 2 ^ 28
      word-elsewhere a apart =
          ap (λ x. x % 2 ^ 28) (le32-apart m (start + 4 * c) (bytes32 v) m' a stored apart)

    table_address : (c : ℕ) → c < n → cluster_to_fat_table_address p c ≡ p.fat_address + 4 * c
    unfolding cluster_to_fat_table_address
    table_address c inside = omega (arith, l.copy_behind, l.words)

    copy_address :
        (c : ℕ) → c < n → cluster_to_fat_copy_table_address p c ≡ p.fat_copy_start_address + 4 * c
    unfolding cluster_to_fat_copy_table_address
    copy_address c inside = omega (arith, l.words)

    abbrev Wrote : (address v : ℕ) → Disk → Disk → Type 0
    Wrote address v s s' = IsReady s' × Stored (vol s) address (bytes32 v) (vol s')

    write_word :
        (s : Disk) (address v : ℕ)
        → IsReady s
        → address + 4 ≤ size
        → Gives (seek_write d alloc address (bytes32 v) 4 s) (λ _. Wrote address v s)
    write_word s address v ready fits =
        let (u, s', run, r) =
          seek_write-HasWritten d t w alloc memory offset size address 4 (omega arith) (omega arith)
            fits s (bytes32 v) ready in
        (u, s', run, (r.ready, r.stored))

    both-Entered :
        (c v : ℕ) (s s1 s2 : Disk)
        → c < n
        → v < 2 ^ 32
        → Wrote (p.fat_address + 4 * c) v s s1
        → Wrote (p.fat_copy_start_address + 4 * c) v s1 s2
        → Entered c v s s2
    both-Entered c v s s1 s2 inside small (ready1, first) (ready2, second) = record {
      ready = ready2;
      table = λ e within_table.
          word-elsewhere p.fat_copy_start_address c v (vol s1) (vol s2) second
            (p.fat_address + 4 * e) (λ k small_k. ground (arith, l.copy_behind))
          ∙ words-set p.fat_address c v (vol s) (vol s1) first small e;
      copy = λ e within_table.
          words-set p.fat_copy_start_address c v (vol s1) (vol s2) second small e
          ∙ ap (λ x. if e == c then v % 2 ^ 28 else x)
              (word-elsewhere p.fat_address c v (vol s) (vol s1) first
                (p.fat_copy_start_address + 4 * e) (λ k small_k. ground (arith, l.copy_behind)));
      others = λ a off_table off_copy.
          Stored-outside (vol s1) (p.fat_copy_start_address + 4 * c) (bytes32 v) (vol s2) second a
            (ground arith)
          ∙ Stored-outside (vol s) (p.fat_address + 4 * c) (bytes32 v) (vol s1) first a
              (ground arith);
    }

    -- On a volume whose streams are ready, with the table and its copy one behind the other on it,
    -- writeFATEntry of a uint32_t succeeds: the entry holds the low 28 bits of the value in the
    -- table and in the copy, every other entry of both keeps its value, and no byte outside the
    -- two changes.
    pub write_fat_entry-Entered :
        (s : Disk) (c v : ℕ)
        → IsReady s
        → c < n
        → v < 2 ^ 32
        → Gives (write_fat_entry d alloc p c v s) (λ _. Entered c v s)
    unfolding write_fat_entry
    write_fat_entry-Entered s c v ready inside small =
        after-Gives (seek_write d alloc (cluster_to_fat_table_address p c) (bytes32 v) 4 s) _
          (rw (table_address c inside) (
            write_word s (p.fat_address + 4 * c) v ready
              (omega (arith, l.copy_behind, l.on_volume))))
          (λ u s1 first.
            let (u2, s2, run, second) : Gives
                (seek_write d alloc (cluster_to_fat_copy_table_address p c) (bytes32 v) 4 s1)
                (λ _. Wrote (p.fat_copy_start_address + 4 * c) v s1) =
              rw (copy_address c inside) (
                write_word s1 (p.fat_copy_start_address + 4 * c) v first.0
                  (omega (arith, l.on_volume))) in
            (u2, s2, run, both-Entered c v s s1 s2 inside small first second))
