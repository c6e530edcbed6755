-- ===== src/Disks/Labels.antt =====
-- The look-up of a volume by its label.
use boba_os.Base.{ℕ, ◌+◌, ◌<◌, ◌≡◌, some, none, if◌then◌else◌, ◌==◌, length, get_elem?, arith}
use boba_os.Disks.{Disks, partition_get_by_volume_label, label_ascii_offset}

-- partitionGetByVolumeLabel finds the first partition by its label C. For the other labels that were
-- given out, D and on, it reads before the list, since it subtracts the label from that of C.
pub partition_get_by_volume_label-rest :
    (s : Disks) (k : ℕ)
    → k < length s.partition_list
    → label_ascii_offset + k < 128
    → partition_get_by_volume_label s (label_ascii_offset + k)
      ≡ (if k == 0 then some (get_elem? s.partition_list 0) else none)
unfolding partition_get_by_volume_label
partition_get_by_volume_label-rest s k given small = ground arith
