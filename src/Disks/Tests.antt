-- ===== src/Disks/Tests.antt =====
-- One disk with two active partitions, in the first two entries of its table.
use boba_os.Base.{ℕ, ◌+◌, ◌*◌, ◌≡◌, refl, if◌then◌else◌, [], ◌∷◌, ltb}
use boba_os.Disks.{Disks, MbrEntry, check_mbr_partition}

abbrev two_active : ℕ → MbrEntry
two_active k = record {
  bootable = if ltb k 2 then 0x80 else 0;
  partition_start = 2048 + k * 4096;
  total_sectors = 4096;
}

abbrev none_found : Disks
none_found = record {
  disk_list = [];
  partition_list = [];
  partition = λ d i. record { id = 0; label = 0; offset_bytes = 0; size_bytes = 0; disk = 0 };
  disk_id = λ d. d;
  current_label = 67;
}

-- The second one is passed over.
one_of_two : (check_mbr_partition two_active 1 none_found).0 ≡ 1
unfolding check_mbr_partition
one_of_two = refl

abbrev three : Disks
three = record none_found { partition_list = (1, 0) ∷ (1, 0) ∷ (2, 0) ∷ [] }
