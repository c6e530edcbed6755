-- ===== src/Stream/Tests.antt =====
-- A driver that transfers at once, and streams on a disk of four sectors.
use boba_os.Base.{
  ℕ, ◌+◌, ◌-◌, ◌*◌, ◌%◌, ◌≡◌, refl, sym, ap, true, Ram, ok, ok-injective, if◌then◌else◌, arith,
}
use boba_os.Memory.Copy.{within}
use boba_os.Stream.{
  Driver, Transfers, DiskStream, PartitionStream, disk_stream_write, partition_stream_seek,
  partition_stream_read, partition_stream_write,
}
use boba_os.Stream.Write.{HasWritten}
use boba_os.Stream.Total.{
  Works, disk_stream_write-total, partition_stream_read-total, partition_stream_write-total,
}
use boba_os.Stream.Volume.{
  InStep, partition_stream_seek-InStep, partition_stream_seek-stuck, VolumeRead, VolumeWritten,
}

abbrev prompt : Driver
prompt = record {
  read = λ m lba total. ok (λ i. m (lba * 512 + i));
  write = λ m lba total b.
      (ok tt, λ a. if within (lba * 512) (total * 512) a then b (a - lba * 512) else m a);
}

prompt-Transfers : Transfers prompt
prompt-Transfers = record {
  read_sectors = λ m lba total b run i inside. sym (ap (λ g. g i) (ok-injective run));
  write_sectors = λ m lba total b m' run a. sym (ap {B = ℕ} (λ p. p.1 a) run);
}

prompt-Works : Works prompt
prompt-Works = record {
  reads = λ m lba total. ((λ i. m (lba * 512 + i)), refl);
  writes = λ m lba total b.
      ((λ a. if within (lba * 512) (total * 512) a then b (a - lba * 512) else m a), refl);
}

-- Each byte of the medium is its address modulo 256.
abbrev medium : Ram
medium a = a % 256

-- Inside the second sector of a disk of four.
abbrev stream : DiskStream
stream = record { size_bytes = 2048; position = 600 }

abbrev ones : Ram
ones i = 1

disk_stream_write-total_example :
    (s' : DiskStream) × (m' : Ram) × (disk_stream_write prompt medium stream ones 500 true
      ≡ (ok s', m'))
    × HasWritten prompt prompt-Transfers medium stream ones 500 s' m'
disk_stream_write-total_example =
    disk_stream_write-total prompt prompt-Transfers prompt-Works medium stream ones 500
      (omega arith) (omega arith) (omega arith)

-- A volume of the last three sectors.
abbrev volume : PartitionStream
volume = record {
  label = b'C';
  position = 88;
  volume_offset = 512;
  volume_size = 1536;
  disk_stream = stream;
}

volume-InStep : InStep volume
volume-InStep = omega arith

partition_stream_seek-InStep_example :
    (p' : PartitionStream) × (partition_stream_seek volume 1000 ≡ ok p')
    × InStep p'
    × (p'.position ≡ 1000)
partition_stream_seek-InStep_example =
    partition_stream_seek-InStep volume volume-InStep 1000 (omega arith) (omega arith)

abbrev at_end : PartitionStream
at_end = record volume { position = 1536; disk_stream = record stream { position = 2048 } }

at_end-InStep : InStep at_end
at_end-InStep = omega arith

partition_stream_seek-stuck_example :
    (p' : PartitionStream) × (partition_stream_seek at_end 0 ≡ ok p')
    × (p'.disk_stream ≡ at_end.disk_stream)
    × ¬ (InStep p')
partition_stream_seek-stuck_example =
    partition_stream_seek-stuck at_end at_end-InStep 0 (omega arith) refl

partition_stream_read-total_example :
    (out : Ram) × (p' : PartitionStream) × (partition_stream_read prompt medium volume 100 true
      ≡ ok (out, p'))
    × VolumeRead prompt prompt-Transfers medium volume volume-InStep 100 (omega arith) out p'
partition_stream_read-total_example =
    partition_stream_read-total prompt prompt-Transfers prompt-Works medium volume volume-InStep 100
      (omega arith) (omega arith) (omega arith)

partition_stream_write-total_example :
    (p' : PartitionStream) × (m' : Ram) × (partition_stream_write prompt medium volume ones 100 true
      ≡ (ok p', m'))
    × VolumeWritten prompt prompt-Transfers medium volume volume-InStep 100 (omega arith) ones p' m'
partition_stream_write-total_example =
    partition_stream_write-total prompt prompt-Transfers prompt-Works medium volume volume-InStep
      100 (omega arith) (omega arith) (omega arith) ones
