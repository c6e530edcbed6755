-- ===== src/Stream/Volume.antt =====
-- A partition stream stays in step with its disk stream and inside its volume.
use mathlib.Core.Path.{subst, subst₂}
use boba_os.Base.{
  ℕ, ◌+◌, ◌-◌, ◌*◌, ◌^◌, ◌≤◌, ◌<◌, ◌≡◌, refl, ap, ◌∙◌, Ram, add64, mul64, Bool, false,
  if◌then◌else◌, ltb, Result, ok, Errno, arith, ok-injective, err-ne-ok, check-ok, Bool-cases, inl,
  inr, Result-cases, lt→leb, le→ltb, le→leb, lt→ltb,
}
use boba_os.Memory.Copy.{within}
use boba_os.Stream.{
  Driver, Transfers, DiskStream, check_disk_stream, disk_stream_read, disk_stream_write,
  disk_stream_seek, PartitionStream, partition_stream_seek, partition_stream_read,
  partition_stream_write, moved,
}
use boba_os.Stream.Read.{disk_stream_read-HasRead}
use boba_os.Stream.Write.{HasWritten, disk_stream_write-HasWritten}

-- The disk stream stands where the partition stream says, and the volume lies on the disk.
pub record InStep (p : PartitionStream) : Type 0 where
  pub in_step : p.disk_stream.position ≡ p.volume_offset + p.position
  pub on_disk : p.volume_offset + p.volume_size ≤ p.disk_stream.size_bytes
  pub in_volume : p.position ≤ p.volume_size
  pub small : p.disk_stream.size_bytes * 512 < 2 ^ 64

module _ (p : PartitionStream) (v : InStep p) (position : ℕ)
    (inside : position < p.volume_size) where
  -- With the two streams in step, a seek inside the volume moves both, if the disk stream stands
  -- before the end of the disk.
  pub partition_stream_seek-InStep :
      p.disk_stream.position < p.disk_stream.size_bytes
      → (p' : PartitionStream) × (partition_stream_seek p position ≡ ok p')
        × InStep p'
        × (p'.position ≡ position)
  unfolding partition_stream_seek disk_stream_seek check_disk_stream
  partition_stream_seek-InStep before = (
    record p {
      disk_stream = record p.disk_stream { position = add64 p.volume_offset position };
      position = position;
    },
    rw (
      lt→ltb position p.volume_size inside,
      lt→leb p.disk_stream.position p.disk_stream.size_bytes before,
      le→ltb (mul64 p.disk_stream.size_bytes 512) (add64 p.volume_offset position) (omega arith),
    ),
    record {
      in_step = omega arith;
      on_disk = omega arith;
      in_volume = omega arith;
      small = v.small;
    },
    refl,
  )

  -- With the two streams in step at the end of the disk, a seek inside the volume reports success
  -- and does not move the disk stream: its two positions are out of step from then on.
  pub partition_stream_seek-stuck :
      p.disk_stream.position ≡ p.disk_stream.size_bytes
      → (p' : PartitionStream) × (partition_stream_seek p position ≡ ok p')
        × (p'.disk_stream ≡ p.disk_stream)
        × ¬ (InStep p')
  unfolding partition_stream_seek disk_stream_seek check_disk_stream
  partition_stream_seek-stuck end = (
    record p { position = position },
    rw (
      lt→ltb position p.volume_size inside,
      le→leb p.disk_stream.size_bytes p.disk_stream.position (omega arith),
    ),
    refl,
    λ w. omega (arith, w.in_step),
  )

module _ (d : Driver) (t : Transfers d) (m : Ram) (p : PartitionStream) (v : InStep p) (length : ℕ)
    (small : length < 2 ^ 63) where
  -- What a read from a volume gives.
  pub record VolumeRead (out : Ram) (p' : PartitionStream) : Type 0 where
    pub bytes : (i : ℕ) → i < length → out i ≡ m (p.volume_offset + p.position + i)
    pub inside : p.position + length ≤ p.volume_size
    pub in_step : InStep p'
    pub position : p'.position ≡ p.position + length

  -- With the two streams in step, over a driver that moves the sectors that it names, a read of
  -- less than 2^63 bytes that succeeds lies inside the volume, gives its bytes from the position
  -- on, and keeps the streams in step.
  pub partition_stream_read-VolumeRead :
      (got : Bool) {out : Ram} {p' : PartitionStream}
      → partition_stream_read d m p length got ≡ ok (out, p')
      → VolumeRead out p'
  unfolding partition_stream_read
  partition_stream_read-VolumeRead got {out} {p'} e =
      let (fits, e1) =
        check-ok Errno.ediskspace (ltb p.volume_size (add64 p.position length)) _ e in
      elim (Result-cases (disk_stream_read d m p.disk_stream length got)) [
        | inl (x, failed) ↦ absurd (err-ne-ok (rw failed at e1))
        | inr ((o, s), run) ↦
            let r = disk_stream_read-HasRead d t m p.disk_stream length (omega arith) got run in
            let fits' : p.position + length ≤ p.volume_size = ground arith in
            subst (λ q. VolumeRead q.0 q.1) (ok-injective (rw run at e1))
              (record {
                bytes = λ i b. r.bytes i b ∙ ap (λ k. m (k + i)) v.in_step;
                inside = fits';
                in_step = record {
                  in_step = omega (arith, r.position, v.in_step);
                  on_disk = omega (arith, r.size, v.on_disk);
                  in_volume = omega arith;
                  small = omega (arith, r.size, v.small);
                };
                position = omega arith;
              })
      ]

  -- What a write to a volume leaves.
  pub record VolumeWritten (bytes : Ram) (p' : PartitionStream) (m' : Ram) : Type 0 where
    pub medium :
        (a : ℕ)
        → m' a ≡ (
            if within (p.volume_offset + p.position) length a
            then bytes (a - (p.volume_offset + p.position))
            else m a)
    pub inside : p.position + length ≤ p.volume_size
    pub others : (a : ℕ) → within p.volume_offset p.volume_size a ≡ false → m' a ≡ m a
    pub in_step : InStep p'
    pub position : p'.position ≡ p.position + length

  written :
      (bytes : Ram) (p' : PartitionStream) (m' : Ram) (s : DiskStream)
      → p.position + length ≤ p.volume_size
      → (g : Ram) → HasWritten d t m p.disk_stream bytes length s g
      → ok (record p { disk_stream = s; position = add64 p.position length }) ≡ ok p'
      → g ≡ m'
      → VolumeWritten bytes p' m'
  written bytes p' m' s fits g r same_stream same_medium =
      subst₂ (VolumeWritten bytes) (ok-injective same_stream) same_medium (record {
        medium =
            λ a. r.medium a ∙ ap (λ k. if within k length a then bytes (a - k) else m a) v.in_step;
        inside = fits;
        others = λ a out. ground (arith, r.medium a, v.in_step);
        in_step = record {
          in_step = omega (arith, r.position, v.in_step);
          on_disk = omega (arith, r.size, v.on_disk);
          in_volume = omega arith;
          small = omega (arith, r.size, v.small);
        };
        position = omega arith;
      })

  -- With the two streams in step, over a driver that moves the sectors that it names, a write of
  -- less than 2^63 bytes that succeeds lies inside the volume, stores the bytes there, changes no
  -- byte outside them, and keeps the streams in step.
  pub partition_stream_write-VolumeWritten :
      (bytes : Ram) (got : Bool) {p' : PartitionStream} {m' : Ram}
      → partition_stream_write d m p bytes length got ≡ (ok p', m')
      → VolumeWritten bytes p' m'
  unfolding partition_stream_write moved
  partition_stream_write-VolumeWritten bytes got {p'} {m'} e =
      elim (Bool-cases (ltb p.volume_size (add64 p.position length))) [
        | inl over ↦ absurd (err-ne-ok (ap (λ q. q.0) (rw over at e)))
        | inr fits ↦
            let out = disk_stream_write d m p.disk_stream bytes length got in
            let e1 : ◌≡◌ {A = Result PartitionStream × Ram} (moved p length out.0, out.1)
                (ok p', m') =
              rw fits at e in
            elim (Result-cases out.0) [
              | inl (x, failed) ↦
                  absurd (err-ne-ok (rw failed at (ap {B = Result PartitionStream} (λ q. q.0) e1)))
              | inr (s, done) ↦
                  let r =
                    disk_stream_write-HasWritten d t m p.disk_stream bytes length (omega arith) got
                      (λ i. (done i, out.1)) in
                  written bytes p' m' s (ground arith) out.1 r
                    (rw done at (ap {B = Result PartitionStream} (λ q. q.0) e1))
                    (ap {B = Ram} (λ q. q.1) e1)
            ]
      ]
