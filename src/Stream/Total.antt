-- ===== src/Stream/Total.antt =====
-- Reads and writes inside a disk and inside a volume succeed, if the driver's transfers do.
use boba_os.Base.{
  ℕ, ◌+◌, ◌-◌, ◌*◌, ◌/◌, ◌%◌, ◌^◌, ◌≤◌, ◌<◌, ◌≡◌, Ram, add64, true, ◌==◌, ok, arith, Bool-cases,
  inl, inr, lt→leb, le→ltb,
}
use boba_os.Stream.{
  Driver, Transfers, DiskStream, copy_in, check_disk_stream, sectors, disk_stream_read, fill_first,
  fill_last, fill_buffer, write_out, disk_stream_write,
}
use boba_os.Stream.Read.{HasRead, disk_stream_read-HasRead}
use boba_os.Stream.Write.{HasWritten, disk_stream_write-HasWritten}
use boba_os.Stream.{PartitionStream, partition_stream_read, partition_stream_write, moved}
use boba_os.Stream.Volume.{
  InStep, VolumeRead, VolumeWritten, partition_stream_read-VolumeRead,
  partition_stream_write-VolumeWritten,
}

-- A driver whose transfers all succeed.
pub record Works (d : Driver) : Type 0 where
  pub reads : (m : Ram) (lba total : ℕ) → (b : Ram) × (d.read m lba total ≡ ok b)
  pub writes :
      (m : Ram) (lba total : ℕ) (b : Ram) → (m' : Ram) × (d.write m lba total b ≡ (ok tt, m'))

module _ (d : Driver) (t : Transfers d) (w : Works d) (m : Ram) (s : DiskStream) where
  fill_first-ok : (lba pos : ℕ) → (b : Ram) × (fill_first d m lba pos ≡ ok b)
  unfolding fill_first
  fill_first-ok lba pos =
      let (c, run) = w.reads m lba 1 in
      elim (Bool-cases (pos == 0)) [
        | inl e ↦ ((λ i. 0), rw e)
        | inr e ↦ (copy_in (λ i. 0) 0 512 c, rw (e, run))
      ]

  fill_last-ok :
      (lba total rest : ℕ) (buffer : Ram) → (b : Ram) × (fill_last d m lba total rest buffer ≡ ok b)
  unfolding fill_last
  fill_last-ok lba total rest buffer =
      let (c, run) = w.reads m (lba + total - 1) 1 in
      elim (Bool-cases (rest == 0)) [
        | inl e ↦ (buffer, rw e)
        | inr e ↦ (
          copy_in buffer ((total - 1) * 512 + rest) (512 - rest) (λ i. c (rest + i)),
          rw (e, run),
        )
      ]

  fill_buffer-ok :
      (lba pos length : ℕ) (bytes : Ram) → (b : Ram) × (fill_buffer d m lba pos length bytes ≡ ok b)
  unfolding fill_buffer
  fill_buffer-ok lba pos length bytes =
      let (b1, first) = fill_first-ok lba pos in
      let (b, last) =
        fill_last-ok lba (sectors pos length) (add64 pos length % 512)
          (copy_in b1 pos length bytes) in
      (b, rw (first, fill_buffer) last)

  -- On a driver whose transfers succeed and move the sectors that they name, a write inside the
  -- disk, from before its end, succeeds: the bytes of the medium from the position on are those
  -- that were given, no other byte changes, and the position moves behind them.
  pub disk_stream_write-total :
      (bytes : Ram) (length : ℕ)
      → s.position < s.size_bytes
      → s.position + length ≤ s.size_bytes
      → s.size_bytes < 2 ^ 64
      → (s' : DiskStream) × (m' : Ram) × (disk_stream_write d m s bytes length true ≡ (ok s', m'))
        × HasWritten d t m s bytes length s' m'
  unfolding disk_stream_write check_disk_stream write_out
  disk_stream_write-total bytes length inside fits small =
      let (b, filled) = fill_buffer-ok (s.position / 512) (s.position % 512) length bytes in
      let (m', run) = w.writes m (s.position / 512) (sectors (s.position % 512) length) b in
      let s' : DiskStream = record s { position = add64 s.position length } in
      let done : disk_stream_write d m s bytes length true ≡ (ok s', m') = rw (
        lt→leb s.position s.size_bytes inside,
        le→ltb s.size_bytes (add64 s.position length) (omega arith),
        filled,
        run,
      ) in
      (s', m', done, disk_stream_write-HasWritten d t m s bytes length (omega arith) true done)

  -- On a driver whose transfers succeed and move the sectors that they name, a read inside the
  -- disk, from before its end, succeeds: it gives the bytes of the medium from the position on,
  -- and the position moves behind them.
  pub disk_stream_read-total :
      (length : ℕ)
      → s.position < s.size_bytes
      → s.position + length ≤ s.size_bytes
      → s.size_bytes < 2 ^ 64
      → (out : Ram) × (s' : DiskStream) × (disk_stream_read d m s length true ≡ ok (out, s'))
        × HasRead d t m s length out s'
  unfolding disk_stream_read check_disk_stream
  disk_stream_read-total length inside fits small =
      let (b, run) = w.reads m (s.position / 512) (sectors (s.position % 512) length) in
      let s' : DiskStream = record s { position = add64 s.position length } in
      let done : disk_stream_read d m s length true ≡ ok ((λ i. b (s.position % 512 + i)), s') =
        rw (
          lt→leb s.position s.size_bytes inside,
          le→ltb s.size_bytes (add64 s.position length) (omega arith),
          run,
        ) in
      (_, s', done, disk_stream_read-HasRead d t m s length (omega arith) true done)

module _ (d : Driver) (t : Transfers d) (w : Works d) (m : Ram) (p : PartitionStream) (v : InStep p)
    (length : ℕ) (small : length < 2 ^ 63)
    (before : p.disk_stream.position < p.disk_stream.size_bytes)
    (fits : p.position + length ≤ p.volume_size) where
  -- On such a driver, with the two streams in step and the disk stream before the end of the disk,
  -- a read of less than 2^63 bytes inside the volume succeeds: it gives the bytes of the volume
  -- from the position on, and the streams move on in step.
  pub partition_stream_read-total :
      (out : Ram) × (p' : PartitionStream) × (partition_stream_read d m p length true
        ≡ ok (out, p'))
      × VolumeRead d t m p v length small out p'
  unfolding partition_stream_read
  partition_stream_read-total =
      let (out, s, run, r) =
        disk_stream_read-total d t w m p.disk_stream length before
          (omega (arith, v.in_step, v.on_disk)) (omega (arith, v.small)) in
      let p' : PartitionStream = record p { disk_stream = s; position = add64 p.position length } in
      let done : partition_stream_read d m p length true ≡ ok (out, p') =
        rw (le→ltb p.volume_size (add64 p.position length) (omega arith), run) in
      (out, p', done, partition_stream_read-VolumeRead d t m p v length small true done)

  -- On such a driver, with the two streams in step and the disk stream before the end of the disk,
  -- a write of less than 2^63 bytes inside the volume succeeds: the bytes of the volume from the
  -- position on are those that were given, no other byte of the medium changes, and the streams
  -- move on in step.
  pub partition_stream_write-total :
      (bytes : Ram)
      → (p' : PartitionStream) × (m' : Ram) × (partition_stream_write d m p bytes length true
          ≡ (ok p', m'))
        × VolumeWritten d t m p v length small bytes p' m'
  unfolding partition_stream_write moved
  partition_stream_write-total bytes =
      let (s, m', run, r) =
        disk_stream_write-total d t w m p.disk_stream bytes length before
          (omega (arith, v.in_step, v.on_disk)) (omega (arith, v.small)) in
      let p' : PartitionStream = record p { disk_stream = s; position = add64 p.position length } in
      let done : partition_stream_write d m p bytes length true ≡ (ok p', m') =
        rw (le→ltb p.volume_size (add64 p.position length) (omega arith), run) in
      (p', m', done, partition_stream_write-VolumeWritten d t m p v length small bytes true done)
