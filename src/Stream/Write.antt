-- ===== src/Stream/Write.antt =====
-- diskStreamWrite changes bytes, though the driver writes sectors.
use boba_os.Base.{
  ℕ, ◌+◌, ◌-◌, ◌*◌, ◌/◌, ◌%◌, ◌^◌, ◌<◌, ◌≡◌, refl, ap, sym, ◌∙◌, Ram, add64, Bool, if◌then◌else◌,
  ltb, ◌==◌, Result, ok, err, arith, ok-injective, err-ne-ok, Bool-cases, inl, inr, ne→==,
  Result-cases, lt-cases,
}
use boba_os.Memory.Copy.{within, within-bounds, bounds-within}
use boba_os.Stream.{
  Driver, Transfers, DiskStream, copy_in, check_disk_stream, sectors, fill_first, fill_last,
  fill_buffer, write_out, disk_stream_write,
}
use boba_os.Stream.Read.{sectors-cover, sectors-le}

module _ (d : Driver) (t : Transfers d) (m : Ram) where
  -- The first `pos` bytes of the first sector.
  fill_first-kept :
      (lba pos : ℕ) {b : Ram}
      → pos < 512
      → fill_first d m lba pos ≡ ok b
      → (i : ℕ) → i < pos
      → b i ≡ m (lba * 512 + i)
  unfolding fill_first
  fill_first-kept lba pos {b} small e i low = elim (Result-cases (d.read m lba 1)) [
    | inl (x, failed) ↦ absurd (err-ne-ok (rw (ne→== pos 0 (omega arith), failed) at e))
    | inr (c, run) ↦
        let e' : ok (copy_in (λ i. 0) 0 512 c) ≡ ok b = rw (ne→== pos 0 (omega arith), run) at e in
        sym (ap (λ f. f i) (ok-injective e'))
        ∙ rw (bounds-within 0 512 i (omega arith) (omega arith))
            (ap c (omega arith) ∙ t.read_sectors m lba 1 c run i (omega arith))
  ]

  last-at :
      (sector base rest : ℕ) (buffer c : Ram) (i : ℕ)
      → rest < 512
      → d.read m sector 1 ≡ ok c
      → copy_in buffer (base + rest) (512 - rest) (λ i. c (rest + i)) i
        ≡ (if within (base + rest) (512 - rest) i then m (sector * 512 + (i - base)) else buffer i)
  last-at sector base rest buffer c i small run =
      elim (Bool-cases (within (base + rest) (512 - rest) i)) [
        | inr out ↦ rw out
        | inl w ↦
            let (low, high) = within-bounds (base + rest) (512 - rest) i w in
            rw w (ap c (omega arith) ∙ t.read_sectors m sector 1 c run (i - base) (omega arith))
      ]

  -- The bytes behind the `rest` first of the last sector.
  fill_last-kept :
      (lba total rest : ℕ) (buffer : Ram) {b : Ram}
      → rest < 512
      → fill_last d m lba total rest buffer ≡ ok b
      → (i : ℕ)
      → b i ≡ (
          if rest == 0
          then buffer i
          else (if within ((total - 1) * 512 + rest) (512 - rest) i
              then m ((lba + total - 1) * 512 + (i - (total - 1) * 512))
              else buffer i))
  unfolding fill_last
  fill_last-kept lba total rest buffer {b} small e i = elim (Bool-cases (rest == 0)) [
    | inl zero_rest ↦ rw zero_rest (sym (ap (λ f. f i) (ok-injective (rw zero_rest at e))))
    | inr some_rest ↦ elim (Result-cases (d.read m (lba + total - 1) 1)) [
      | inl (x, failed) ↦ absurd (err-ne-ok (rw (some_rest, failed) at e))
      | inr (c, run) ↦ rw some_rest (
          sym (ap (λ f. f i) (ok-injective (rw (some_rest, run) at e)))
          ∙ last-at (lba + total - 1) ((total - 1) * 512) rest buffer c i small run)
    ]
  ]

  -- What the sectors hold before they are written.
  fill_buffer-Filled :
      (lba pos length : ℕ) (bytes : Ram) {b : Ram}
      → pos < 512
      → pos + length < 2 ^ 64
      → fill_buffer d m lba pos length bytes ≡ ok b
      → (i : ℕ) → i < sectors pos length * 512
      → b i ≡ (if within pos length i then bytes (i - pos) else m (lba * 512 + i))
  unfolding fill_buffer
  fill_buffer-Filled lba pos length bytes {b} small fits e i inside =
      elim (Result-cases (fill_first d m lba pos)) [
        | inl (x, failed) ↦ absurd (err-ne-ok (rw (failed, fill_buffer) at e))
        | inr (b1, first) ↦
            let e' : fill_last d m lba (sectors pos length) (add64 pos length % 512)
                  (copy_in b1 pos length bytes)
                ≡ ok b =
              rw (first, fill_buffer) at e in
            let last =
              fill_last-kept lba (sectors pos length) (add64 pos length % 512)
                (copy_in b1 pos length bytes) (omega arith) e' i in
            let cover = sectors-cover pos length fits in
            elim (lt-cases i pos) [
              | inl before ↦
                  ground
                    (arith, last, cover.0, cover.1, fill_first-kept lba pos small first i before)
              | inr from ↦ elim (lt-cases i (pos + length)) [
                | inl middle ↦ ground (arith, last, cover.0, cover.1)
                | inr behind ↦ ground (
                  arith,
                  last,
                  cover.0,
                  cover.1,
                  ap m
                      {x = (lba + sectors pos length - 1) * 512
                        + (i - (sectors pos length - 1) * 512)}
                      {y = lba * 512 + i},
                )
              ]
            ]
      ]

  -- What a write that succeeds leaves.
  pub record HasWritten (s : DiskStream) (bytes : Ram) (length : ℕ) (s' : DiskStream) (m' : Ram)
      : Type 0 where
    pub medium :
        (a : ℕ) → m' a ≡ (if within s.position length a then bytes (a - s.position) else m a)
    pub position : s'.position ≡ s.position + length
    pub size : s'.size_bytes ≡ s.size_bytes

  module _ (s : DiskStream) (bytes : Ram) (length : ℕ) (small : s.position + length < 2 ^ 64) where
    abbrev lba : ℕ
    lba = s.position / 512

    abbrev pos : ℕ
    pos = s.position % 512

    abbrev total : ℕ
    total = sectors pos length

    add64-small : add64 s.position length ≡ s.position + length
    add64-small = omega arith

    written-at :
        (b m' : Ram) (a : ℕ)
        → fill_buffer d m lba pos length bytes ≡ ok b
        → d.write m lba total b ≡ (ok tt, m')
        → m' a ≡ (if within s.position length a then bytes (a - s.position) else m a)
    written-at b m' a filled run =
        let sectored = t.write_sectors m lba total b m' run a in
        let cover = sectors-le pos length (omega arith) in
        elim (Bool-cases (within (lba * 512) (total * 512) a)) [
          | inr out ↦ ground (arith, sectored, cover)
          | inl w ↦
              let (low, high) = within-bounds (lba * 512) (total * 512) a w in
              ground (
                arith,
                sectored,
                fill_buffer-Filled lba pos length bytes (omega arith) (omega arith) filled
                    (a - lba * 512) (omega arith),
                ap m {x = lba * 512 + (a - lba * 512)} {y = a},
                ap bytes {x = a - lba * 512 - pos} {y = a - s.position},
              )
        ]

    write_out-HasWritten :
        (r : Result Ram) {s' : DiskStream} {m' : Ram}
        → fill_buffer d m lba pos length bytes ≡ r
        → write_out d m s lba length r total ≡ (ok s', m')
        → HasWritten s bytes length s' m'
    unfolding write_out
    write_out-HasWritten (err x) filled e = absurd (err-ne-ok (ap (λ p. p.0) e))
    write_out-HasWritten (ok b) {s'} {m'} filled e = elim (Result-cases (d.write m lba total b).0) [
      | inl (x, failed) ↦
          absurd (err-ne-ok (rw failed at (ap {B = Result DiskStream} (λ p. p.0) e)))
      | inr (u, done) ↦
          let run : d.write m lba total b ≡ (ok tt, (d.write m lba total b).1) =
            λ i. (done i, (d.write m lba total b).1) in
          let moved : ok (record s { position = add64 s.position length }) ≡ ok s' =
            rw done at (ap {B = Result DiskStream} (λ p. p.0) e) in
          let same : (d.write m lba total b).1 ≡ m' = ap (λ p. p.1) e in
          record {
            medium =
                λ a. sym (ap (λ g. g a) same) ∙ written-at b (d.write m lba total b).1 a filled run;
            position = ap (λ z. z.position) (sym (ok-injective moved)) ∙ add64-small;
            size = ap (λ z. z.size_bytes) (sym (ok-injective moved));
          }
    ]

    -- A write that succeeds changes the bytes from the stream's position on, as many as were
    -- given, and no other byte of the medium, though whole sectors are written.
    pub disk_stream_write-HasWritten :
        (got : Bool) {s' : DiskStream} {m' : Ram}
        → disk_stream_write d m s bytes length got ≡ (ok s', m')
        → HasWritten s bytes length s' m'
    unfolding disk_stream_write
    disk_stream_write-HasWritten got e = elim (Bool-cases (check_disk_stream s)) [
      | inr shut ↦ absurd (err-ne-ok (ap (λ p. p.0) (rw shut at e)))
      | inl open_ ↦ elim (Bool-cases (ltb s.size_bytes (add64 s.position length))) [
        | inl over ↦ absurd (err-ne-ok (ap (λ p. p.0) (rw (open_, over) at e)))
        | inr fits ↦ elim (Bool-cases got) [
          | inr none_got ↦ absurd (err-ne-ok (ap (λ p. p.0) (rw (open_, fits, none_got) at e)))
          | inl got' ↦
              write_out-HasWritten (fill_buffer d m lba pos length bytes) refl
                (rw (open_, fits, got') at e)
        ]
      ]
    ]
