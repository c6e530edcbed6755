-- ===== src/Stream/Keeps.antt =====
-- The operations of a partition stream keep its volume and its disk.
use mathlib.Core.Path.{subst}
use boba_os.Base.{
  ℕ, ◌+◌, ◌^◌, ◌<◌, ◌≡◌, refl, ap, Ram, add64, Bool, ltb, Result, ok, Errno, arith, ok-injective,
  err-ne-ok, check-ok, Bool-cases, inl, inr, Result-cases,
}
use boba_os.Stream.{
  Driver, Transfers, DiskStream, disk_stream_seek, disk_stream_read, disk_stream_write, or_else,
  PartitionStream, partition_stream_seek, partition_stream_read, partition_stream_write, moved,
}
use boba_os.Stream.Read.{disk_stream_read-HasRead}
use boba_os.Stream.Write.{disk_stream_write-HasWritten}

pub record SameVolume (p p' : PartitionStream) : Type 0 where
  pub volume_offset : p'.volume_offset ≡ p.volume_offset
  pub volume_size : p'.volume_size ≡ p.volume_size
  pub disk_size : p'.disk_stream.size_bytes ≡ p.disk_stream.size_bytes

disk_stream_seek-size :
    (s : DiskStream) (position : ℕ)
    → (or_else s (disk_stream_seek s position)).size_bytes ≡ s.size_bytes
unfolding disk_stream_seek
disk_stream_seek-size s position = ground arith

pub partition_stream_seek-SameVolume :
    (p : PartitionStream) (position : ℕ) {p' : PartitionStream}
    → partition_stream_seek p position ≡ ok p'
    → SameVolume p p'
unfolding partition_stream_seek
partition_stream_seek-SameVolume p position {p'} e =
    elim (Bool-cases (ltb position p.volume_size)) [
      | inl inside ↦ subst (SameVolume p) (ok-injective (rw inside at e)) (record {
        volume_offset = refl;
        volume_size = refl;
        disk_size = disk_stream_seek-size p.disk_stream (add64 p.volume_offset position);
      })
      | inr outside ↦ absurd (err-ne-ok (rw outside at e))
    ]

module _ (d : Driver) (t : Transfers d) (m : Ram) (p : PartitionStream) (length : ℕ)
    (small : p.disk_stream.position + length < 2 ^ 64) where
  pub partition_stream_read-SameVolume :
      (got : Bool) {out : Ram} {p' : PartitionStream}
      → partition_stream_read d m p length got ≡ ok (out, p')
      → SameVolume p p'
  unfolding partition_stream_read
  partition_stream_read-SameVolume got e =
      let (fits, e1) =
        check-ok Errno.ediskspace (ltb p.volume_size (add64 p.position length)) _ e in
      elim (Result-cases (disk_stream_read d m p.disk_stream length got)) [
        | inl (x, failed) ↦ absurd (err-ne-ok (rw failed at e1))
        | inr ((o, s), run) ↦
            subst (λ q. SameVolume p q.1) (ok-injective (rw run at e1))
              (record {
                volume_offset = refl;
                volume_size = refl;
                disk_size =
                    (disk_stream_read-HasRead d t m p.disk_stream length small got run).size;
              })
      ]

  pub partition_stream_write-SameVolume :
      (bytes : Ram) (got : Bool) {p' : PartitionStream} {m' : Ram}
      → partition_stream_write d m p bytes length got ≡ (ok p', m')
      → SameVolume p p'
  unfolding partition_stream_write moved
  partition_stream_write-SameVolume bytes got {p'} {m'} e =
      elim (Bool-cases (ltb p.volume_size (add64 p.position length))) [
        | inl over ↦ absurd (err-ne-ok (ap (λ q. q.0) (rw over at e)))
        | inr fits ↦
            let out = disk_stream_write d m p.disk_stream bytes length got in
            let e1 : ◌≡◌ {A = Result PartitionStream × Ram} (moved p length out.0, out.1)
                (ok p', m') =
              rw fits at e in
            elim (Result-cases out.0) [
              | inl (x, failed) ↦
                  absurd (err-ne-ok (rw failed at (ap {B = Result PartitionStream} (λ q. q.0) e1)))
              | inr (s, done) ↦
                  let r =
                    disk_stream_write-HasWritten d t m p.disk_stream bytes length small got
                      (λ i. (done i, out.1)) in
                  subst (SameVolume p)
                    (ok-injective (rw done at (ap {B = Result PartitionStream} (λ q. q.0) e1)))
                    (record { volume_offset = refl; volume_size = refl; disk_size = r.size })
            ]
      ]
