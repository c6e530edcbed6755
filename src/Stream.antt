-- ===== src/Stream.antt =====
-- kernel/disk/stream.c and kernel/disk/partitionStream.c: positions on a disk and on a volume, over
-- a driver that transfers whole sectors.
pub mod Read
pub mod Write
pub mod Volume
pub mod Keeps
pub mod Total
mod Tests
use boba_os.Base.{
  ℕ, zero, suc, ◌+◌, ◌-◌, ◌*◌, ◌/◌, ◌%◌, ◌^◌, ◌≤◌, ◌<◌, ◌≡◌, Ram, add64, sub64, mul64, Option, none,
  some, Bool, true, false, ◌&&◌, not, if◌then◌else◌, ltb, leb, ◌==◌, Result, ok, err, Errno,
}
use boba_os.Memory.Copy.{within}

-- A diskDriver's read and write, on a medium with a byte at each address. A buffer is the byte at
-- each offset. A failed write may have changed the medium.
pub record Driver : Type 0 where
  pub read : Ram → (lba total : ℕ) → Result Ram
  pub write : Ram → (lba total : ℕ) → Ram → Result (Unit {0}) × Ram

-- What the streams rely on: a transfer that succeeds moves the sectors that it names.
pub record Transfers (d : Driver) : Type 0 where
  pub read_sectors :
      (m : Ram) (lba total : ℕ) (b : Ram)
      → d.read m lba total ≡ ok b
      → (i : ℕ) → i < total * 512
      → b i ≡ m (lba * 512 + i)
  pub write_sectors :
      (m : Ram) (lba total : ℕ) (b m' : Ram)
      → d.write m lba total b ≡ (ok tt, m')
      → (a : ℕ) → m' a ≡ (if within (lba * 512) (total * 512) a then b (a - lba * 512) else m a)

-- struct diskStream, with the size of its disk.
pub record DiskStream : Type 0 where
  pub size_bytes : ℕ
  pub position : ℕ

-- memcpy from one buffer into another.
abbrev pub copy_in : Ram → (dest n : ℕ) → Ram → Ram
copy_in buffer dest n src = λ i. if within dest n i then src (i - dest) else buffer i

unfoldable pub check_disk_stream : DiskStream → Bool
check_disk_stream s = not (leb s.size_bytes s.position)

-- `disk` is the size of the disk that diskGet finds, and `got` says whether kzalloc succeeds: its
-- answer is not checked, and the outer `none` is a write through NULL. The inner one is NULL.
unfoldable pub disk_stream_create :
    (disk : Option ℕ) (position : ℕ) (got : Bool) → Option (Option DiskStream)
disk_stream_create none position got = some none
disk_stream_create (some size) position got =
    if got then some (some (record { size_bytes = size; position = position })) else none

unfoldable pub disk_stream_seek : DiskStream → (position : ℕ) → Result DiskStream
disk_stream_seek s position =
    if not (check_disk_stream s)
    then err Errno.enmem
    else (if ltb (mul64 s.size_bytes 512) position
        then err Errno.ediskspace
        else ok (record s { position = position }))

-- The number of sectors that `length` bytes from offset `pos` of a sector on touch.
unfoldable pub sectors : (pos length : ℕ) → ℕ
sectors pos length =
    if add64 pos length % 512 == 0 then add64 pos length / 512 else add64 pos length / 512 + 1

module _ (d : Driver) where
  -- `got` says whether kzalloc gives the buffer. The answer holds the bytes read.
  unfoldable pub disk_stream_read :
      Ram → DiskStream → (length : ℕ) → (got : Bool) → Result (Ram × DiskStream)
  disk_stream_read m s length got =
      let lba = s.position / 512 in
      let pos = s.position % 512 in
      if not (check_disk_stream s)
      then err Errno.enmem
      else (if ltb s.size_bytes (add64 s.position length)
          then err Errno.enmem
          else (if not got then err Errno.enmem else elim (d.read m lba (sectors pos length)) [
            | err e ↦ err e
            | ok buffer ↦
                ok (λ i. buffer (pos + i), record s { position = add64 s.position length })
          ]))

  -- The first sector is read where the write starts inside it.
  pub fill_first : Ram → (lba pos : ℕ) → Result Ram
  fill_first m lba pos =
      if pos == 0
      then ok (λ i. 0)
      else elim (d.read m lba 1) [ err e ↦ err e | ok b ↦ ok (copy_in (λ i. 0) 0 512 b) ]

  -- The rest of the last sector is read where the write ends inside it.
  pub fill_last : Ram → (lba total rest : ℕ) → Ram → Result Ram
  fill_last m lba total rest buffer =
      if rest == 0 then ok buffer else elim (d.read m (lba + total - 1) 1) [
        | err e ↦ err e
        | ok b ↦ ok (copy_in buffer ((total - 1) * 512 + rest) (512 - rest) (λ i. b (rest + i)))
      ]

  -- The sectors as they are to be written.
  unfoldable pub fill_buffer : Ram → (lba pos length : ℕ) → (bytes : Ram) → Result Ram
  fill_buffer m lba pos length bytes = elim (fill_first m lba pos) [
    | err e ↦ err e
    | ok buffer ↦
        fill_last m lba (sectors pos length) (add64 pos length % 512)
          (copy_in buffer pos length bytes)
  ]

  pub write_out :
      Ram → DiskStream → (lba length : ℕ) → Result Ram → (total : ℕ) → Result DiskStream × Ram
  write_out m s lba length (err e) total = (err e, m)
  write_out m s lba length (ok buffer) total =
      let (status, m') = d.write m lba total buffer in
      (
        elim status [ err e ↦ err e | ok u ↦ ok (record s { position = add64 s.position length }) ],
        m',
      )

  -- The stream after the write, and the medium.
  unfoldable pub disk_stream_write :
      Ram → DiskStream → (bytes : Ram) → (length : ℕ) → (got : Bool) → Result DiskStream × Ram
  disk_stream_write m s bytes length got =
      let lba = s.position / 512 in
      let pos = s.position % 512 in
      if not (check_disk_stream s)
      then (err Errno.enmem, m)
      else (if ltb s.size_bytes (add64 s.position length)
          then (err Errno.enmem, m)
          else (if not got
              then (err Errno.enmem, m)
              else write_out m s lba length (fill_buffer m lba pos length bytes)
                  (sectors pos length)))

-- struct partitionStream.
pub record PartitionStream : Type 0 where
  pub label : ℕ
  pub position : ℕ
  pub volume_offset : ℕ
  pub volume_size : ℕ
  pub disk_stream : DiskStream

-- `volume` is the partition of the label, with its offset, its size and the size of its disk, where
-- there is one. `got k` says whether call number `k` of kzalloc succeeds.
unfoldable pub partition_stream_create :
    (volume : Option (ℕ × ℕ × Option ℕ)) (label position : ℕ) (got : ℕ → Bool)
    → Option (Option PartitionStream)
unfolding disk_stream_create
partition_stream_create none label position got = some none
partition_stream_create (some (offset, size, disk)) label position got =
    elim (disk_stream_create disk (add64 offset position) (got 0)) [
      | none ↦ none
      | some none ↦ some none
      | some (some stream) ↦
          if got 1
          then some (
              some (record {
                label = label;
                position = position;
                volume_offset = offset;
                volume_size = size;
                disk_stream = stream;
              }))
          else some none
    ]

-- The result of diskStreamSeek is dropped.
abbrev pub or_else : DiskStream → Result DiskStream → DiskStream
or_else s (ok s') = s'
or_else s (err e) = s

unfoldable pub partition_stream_seek : PartitionStream → (position : ℕ) → Result PartitionStream
partition_stream_seek p position =
    if ltb position p.volume_size
    then ok (record p {
      disk_stream =
          or_else p.disk_stream (disk_stream_seek p.disk_stream (add64 p.volume_offset position));
      position = position;
    })
    else err Errno.ediskspace

-- The partition stream after a write.
pub moved : PartitionStream → ℕ → Result DiskStream → Result PartitionStream
moved p length (err e) = err e
moved p length (ok s) = ok (record p { disk_stream = s; position = add64 p.position length })

module _ (d : Driver) where
  unfoldable pub partition_stream_read :
      Ram → PartitionStream → (length : ℕ) → (got : Bool) → Result (Ram × PartitionStream)
  partition_stream_read m p length got =
      if ltb p.volume_size (add64 p.position length)
      then err Errno.ediskspace
      else elim (disk_stream_read d m p.disk_stream length got) [
        | err e ↦ err e
        | ok (out, s) ↦ ok (out, record p { disk_stream = s; position = add64 p.position length })
      ]

  unfoldable pub partition_stream_write :
      Ram
      → PartitionStream
      → (bytes : Ram) → (length : ℕ) → (got : Bool) → Result PartitionStream × Ram
  partition_stream_write m p bytes length got =
      if ltb p.volume_size (add64 p.position length)
      then (err Errno.ediskspace, m)
      else let (r, m') = disk_stream_write d m p.disk_stream bytes length got in
        (moved p length r, m')
