-- ===== src/Fat/Ready.antt =====
-- A FAT32 volume whose streams are in step: its reads and writes succeed and give or store bytes of
-- the volume.
use boba_os.Base.{
  ℕ, ◌+◌, ◌-◌, ◌^◌, ◌≤◌, ◌<◌, ◌≡◌, refl, ap, ◌∙◌, Ram, Bool, true, if◌then◌else◌, ok, arith,
}
use boba_os.Memory.Copy.{within}
use boba_os.Stream.{
  Driver, Transfers, PartitionStream, partition_stream_seek, partition_stream_read,
  partition_stream_write,
}
use boba_os.Stream.Total.{Works, partition_stream_read-total, partition_stream_write-total}
use boba_os.Stream.Volume.{InStep, partition_stream_seek-InStep}
use boba_os.Stream.Keeps.{
  SameVolume, partition_stream_seek-SameVolume, partition_stream_read-SameVolume,
  partition_stream_write-SameVolume,
}
use boba_os.Fat.{Outcome, done, Disk, Act, after, read_from, write_to, wrote, seek_read, seek_write}

-- A run that ends well, in a value and a disk of which `P` holds.
abbrev pub Gives : {A : Type 0} → Outcome A × Disk → (A → Disk → Type 0) → Type 0
Gives {A} r P = (a : A) × (s : Disk) × (r ≡ (done a, s)) × P a s

pub after-Gives :
    {A B : Type 0} {P : A → Disk → Type 0} {Q : B → Disk → Type 0} (r : Outcome A × Disk)
    (f : A → Act B)
    → Gives r P
    → ((a : A) (s : Disk) → P a s → Gives (f a s) Q)
    → Gives (after r f) Q
after-Gives r f (a, s, run, holds) next = rw run (next a s holds)

shifted_store :
    (f : Ram) (x offset address q length b : ℕ)
    → q ≡ offset + address
    → (if within q length (offset + b) then f (offset + b - q) else x)
      ≡ (if within address length b then f (b - address) else x)
shifted_store f x offset address q length b e =
    let same : within q length (offset + b) ≡ within address length b = ground arith in
    let place : offset + b - q ≡ b - address = omega arith in rw (same, place) refl

module _ (d : Driver) (t : Transfers d) (w : Works d) (alloc : ℕ → Bool)
    (memory : (n : ℕ) → alloc n ≡ true) (offset size : ℕ) where
  -- A stream on the volume, which does not reach the end of the disk.
  pub record Attached (p : PartitionStream) : Type 0 where
    pub step : InStep p
    pub from : p.volume_offset ≡ offset
    pub room : p.volume_size ≡ size
    pub slack : offset + size < p.disk_stream.size_bytes

  pub record Ready (s : Disk) : Type 0 where
    pub reading : Attached s.read_stream
    pub writing : Attached s.write_stream

  -- The bytes of the volume.
  abbrev pub volume : Disk → Ram
  volume s a = s.medium (offset + a)

  Attached-keeps : (p p' : PartitionStream) → Attached p → SameVolume p p' → InStep p' → Attached p'
  Attached-keeps p p' v same step = record {
    step = step;
    from = same.volume_offset ∙ v.from;
    room = same.volume_size ∙ v.room;
    slack = omega (arith, same.disk_size, v.slack);
  }

  partition_stream_seek-Attached :
      (p : PartitionStream) (address : ℕ)
      → Attached p
      → address < size
      → (p' : PartitionStream) × (partition_stream_seek p address ≡ ok p')
        × Attached p'
        × (p'.position ≡ address)
  partition_stream_seek-Attached p address v inside =
      let (p', run, step, position) =
        partition_stream_seek-InStep p v.step address (omega (arith, v.room))
          (omega (arith, v.step.in_step, v.step.in_volume, v.from, v.room, v.slack)) in
      (
        p',
        run,
        Attached-keeps p p' v (partition_stream_seek-SameVolume p address run) step,
        position,
      )

  module _ (s : Disk) (p p' : PartitionStream) (address length : ℕ) where
    seek_read-run :
        (out : Ram)
        → partition_stream_seek s.read_stream address ≡ ok p
        → partition_stream_read d s.medium p length true ≡ ok (out, p')
        → seek_read d alloc address length s
          ≡ (done out, record s { read_stream = p'; allocs = s.allocs + 1 })
    unfolding seek_read read_from
    seek_read-run out seek run = rw (seek_read, seek, read_from, memory s.allocs, run) refl

    seek_write-run :
        (bytes m' : Ram)
        → partition_stream_seek s.write_stream address ≡ ok p
        → partition_stream_write d s.medium p bytes length true ≡ (ok p', m')
        → seek_write d alloc address bytes length s
          ≡ (done tt, record s { medium = m'; write_stream = p'; allocs = s.allocs + 1 })
    unfolding seek_write write_to
    seek_write-run bytes m' seek run =
        rw (seek_write, seek) (ap (wrote s p) {y = (ok p', m')} (rw (memory s.allocs) run))

  module _ (address length : ℕ) (small : length < 2 ^ 63) (inside : address < size)
      (fits : address + length ≤ size) where
    -- What a read leaves.
    pub record HasRead (s : Disk) (out : Ram) (s' : Disk) : Type 0 where
      pub ready : Ready s'
      pub same : s'.medium ≡ s.medium
      pub bytes : (i : ℕ) → i < length → out i ≡ volume s (address + i)

    pub seek_read-HasRead :
        (s : Disk) → Ready s → Gives (seek_read d alloc address length s) (HasRead s)
    seek_read-HasRead s v =
        let (p, seek, a, position) =
          partition_stream_seek-Attached s.read_stream address v.reading inside in
        let (out, p', run, r) =
          partition_stream_read-total d t w s.medium p a.step length small
            (omega (arith, a.step.in_step, a.step.in_volume, a.from, a.room, a.slack))
            (omega (arith, a.room)) in
        let same =
          partition_stream_read-SameVolume d t s.medium p length
            (omega (arith, a.step.in_step, a.step.in_volume, a.step.small, a.step.on_disk)) true
            run in
        let s' : Disk = record s { read_stream = p'; allocs = s.allocs + 1 } in
        (
          out,
          s',
          seek_read-run s p p' address length out seek run,
          record {
            ready = record { reading = Attached-keeps p p' a same r.in_step; writing = v.writing };
            same = refl;
            bytes = λ i b. r.bytes i b ∙ ap s.medium (omega (arith, a.from, position));
          },
        )

    -- What a write leaves.
    pub record HasWritten (s : Disk) (bytes : Ram) (s' : Disk) : Type 0 where
      pub ready : Ready s'
      pub stored :
          (a : ℕ)
          → volume s' a ≡ (if within address length a then bytes (a - address) else volume s a)

    pub seek_write-HasWritten :
        (s : Disk) (bytes : Ram)
        → Ready s
        → Gives (seek_write d alloc address bytes length s) (λ _. HasWritten s bytes)
    seek_write-HasWritten s bytes v =
        let (p, seek, a, position) =
          partition_stream_seek-Attached s.write_stream address v.writing inside in
        let (p', m', run, r) =
          partition_stream_write-total d t w s.medium p a.step length small
            (omega (arith, a.step.in_step, a.step.in_volume, a.from, a.room, a.slack))
            (omega (arith, a.room)) bytes in
        let same =
          partition_stream_write-SameVolume d t s.medium p length
            (omega (arith, a.step.in_step, a.step.in_volume, a.step.small, a.step.on_disk)) bytes
            true run in
        let s' : Disk = record s { medium = m'; write_stream = p'; allocs = s.allocs + 1 } in
        (
          tt,
          s',
          seek_write-run s p p' address length bytes m' seek run,
          record {
            ready = record { reading = v.reading; writing = Attached-keeps p p' a same r.in_step };
            stored = λ b.
                r.medium (offset + b)
                ∙ shifted_store bytes (s.medium (offset + b)) offset address
                    (p.volume_offset + p.position) length b (omega (arith, a.from, position));
          },
        )
