-- ===== src/Fat/Tests.antt =====
-- A small FAT32 volume.
use boba_os.Base.{
  List, ℕ, ◌+◌, ◌-◌, ◌*◌, ◌%◌, ◌≤◌, ◌<◌, ◌≡◌, some, refl, sym, ap, Ram, Bool, true, if◌then◌else◌,
  ◌==◌, ok, ok-injective, [], ◌∷◌, arith,
}
use boba_os.Memory.Copy.{within}
use boba_os.Stream.{Driver, Transfers, PartitionStream}
use boba_os.Stream.Total.{Works}
use boba_os.Fat.{BootRecord, FatPrivate, Disk, data_cluster_to_absolute_address, ◌>>◌}
use boba_os.Text.{Chars}
use boba_os.PathTracer.{parts}
use boba_os.PathTracer.Spec.{parts_of}
use boba_os.Fat.Names.{long_file_name_entries_to_name}
use boba_os.Fat.Room.{long_entries_needed}
use boba_os.Fat.Lookup.{root_cluster, find_directory}
use boba_os.Fat.Writing.{Written, write_fat_file-Written}
use boba_os.Fat.RoundTrip.{read_fat_file-write_fat_file}
use boba_os.Fat.Descent.{descend, find_directory-descend}
use boba_os.Fat.LongNames.{long_chain, long_file_name_entries_to_name-long_chain}
use boba_os.Fat.Ready.{Gives, Attached, Ready}
use boba_os.Fat.Table.{write_fat_entry, get_free_fat_entry_cluster, unlink_fat_chain}
use boba_os.Fat.Table.Entries.{Layout, fat, Entered, Unchanged, write_fat_entry-Entered}
use boba_os.Fat.Table.Chains.{Walk}
use boba_os.Fat.Table.Unlink.{Unlinked, unlink_fat_chain-Unlinked}
use boba_os.Fat.Table.Free.{Answer, get_free_fat_entry_cluster-Answer}
use boba_os.Fat.Contents.{contents}
use boba_os.Fat.Room.{FatFile}
use boba_os.Fat.Files.{read_fat_file, write_fat_file}
use boba_os.Fat.Reading.{Clusters, at}
use boba_os.Fat.ReadFile.{read_fat_file-contents}

abbrev pub prompt : Driver
prompt = record {
  read = λ m lba total. ok (λ i. m (lba * 512 + i));
  write = λ m lba total b.
      (ok tt, λ a. if within (lba * 512) (total * 512) a then b (a - lba * 512) else m a);
}

prompt-Transfers : Transfers prompt
prompt-Transfers = record {
  read_sectors = λ m lba total b run i inside. sym (ap (λ g. g i) (ok-injective run));
  write_sectors = λ m lba total b m' run a. sym (ap {B = ℕ} (λ p. p.1 a) run);
}

prompt-Works : Works prompt
prompt-Works = record {
  reads = λ m lba total. ((λ i. m (lba * 512 + i)), refl);
  writes = λ m lba total b.
      ((λ a. if within (lba * 512) (total * 512) a then b (a - lba * 512) else m a), refl);
}

abbrev pub always : ℕ → Bool
always n = true

-- A volume of 540000 bytes from byte 512 on, with two tables of 1024 entries from byte 512 of the
-- volume on, and clusters of a sector. Cluster 5 leads to cluster 6, where the chain ends.
abbrev medium : Ram
medium a =
    if a == 1044
    then 6
    else if within 1048 3 a
    then 255
    else if a == 1051
    then 15
    else if within 1024 8192 a
    then 0
    else a % 251

abbrev stream : PartitionStream
stream = record {
  label = b'C';
  position = 0;
  volume_offset = 512;
  volume_size = 540000;
  disk_stream = record { size_bytes = 600000; position = 512 };
}

abbrev pub disk : Disk
disk = record { medium = medium; read_stream = stream; write_stream = stream; allocs = 0 }

abbrev boot : BootRecord
boot = record {
  bytes_per_sector = 512;
  sectors_per_cluster = 1;
  reserved_sectors = 1;
  fat_copies = 2;
  total_sectors_big = 1024;
  sectors_per_fat32 = 8;
  root_dir_cluster = 2;
}

abbrev pub private : FatPrivate
private = record {
  boot_record = boot;
  cluster_size = 512;
  fat_address = 512;
  fat_copy_start_address = 4608;
  data_cluster_start_address = 8704;
  root_dir_start_address = 8704;
}

always-true : (n : ℕ) → always n ≡ true
always-true n = refl

stream-Attached : Attached prompt prompt-Transfers prompt-Works always always-true 512 540000 stream
stream-Attached = record { step = omega arith; from = refl; room = refl; slack = omega arith }

disk-Ready : Ready prompt prompt-Transfers prompt-Works always always-true 512 540000 disk
disk-Ready = record { reading = stream-Attached; writing = stream-Attached }

private-Layout :
    Layout prompt prompt-Transfers prompt-Works always always-true 512 540000 private 1024
private-Layout = record { copy_behind = omega arith; on_volume = omega arith; words = omega arith }

write_fat_entry-Entered_example : Gives (write_fat_entry prompt always private 7 9 disk) (λ _.
    Entered prompt prompt-Transfers prompt-Works always always-true 512 540000 private 1024
      private-Layout 7 9 disk)
write_fat_entry-Entered_example =
    write_fat_entry-Entered prompt prompt-Transfers prompt-Works always always-true 512 540000
      private 1024 private-Layout disk 7 9 disk-Ready (omega arith) (omega arith)

two_clusters-Walk :
    Walk
      (fat prompt prompt-Transfers prompt-Works always always-true 512 540000 private 1024 disk)
      1024
      5
      (5 ∷ 6 ∷ [])
two_clusters-Walk = (refl, refl, omega arith, (refl, refl, omega arith, refl))

unlink_fat_chain-Unlinked_example : Gives (unlink_fat_chain prompt always private 1 5 disk) (λ _.
    Unlinked prompt prompt-Transfers prompt-Works always always-true 512 540000 private 1024
      private-Layout 5
      (6 ∷ [])
      disk)
unlink_fat_chain-Unlinked_example =
    unlink_fat_chain-Unlinked prompt prompt-Transfers prompt-Works always always-true 512 540000
      private 1024 private-Layout (6 ∷ []) 1 5 disk disk-Ready (omega arith)
      (refl, refl, omega arith, refl) (omega arith)

get_free_fat_entry_cluster-Answer_example :
    Gives (get_free_fat_entry_cluster prompt always private disk) (λ c s'.
      Unchanged prompt prompt-Transfers prompt-Works always always-true 512 540000 private 1024
        private-Layout disk s'
      × Answer prompt prompt-Transfers prompt-Works always always-true 512 540000 private 1024
          private-Layout
          (omega arith)
          (omega arith)
          (fat prompt prompt-Transfers prompt-Works always always-true 512 540000 private 1024 disk)
          c)
get_free_fat_entry_cluster-Answer_example =
    get_free_fat_entry_cluster-Answer prompt prompt-Transfers prompt-Works always always-true 512
      540000 private 1024 private-Layout (omega arith) (omega arith) disk disk-Ready

private-Clusters :
    Clusters prompt prompt-Transfers prompt-Works always always-true 512 540000 private 1024
      private-Layout
unfolding data_cluster_to_absolute_address
private-Clusters = record {
  some_size = omega arith;
  words = omega arith;
  on_volume = λ c inside live. omega arith;
}

abbrev file : FatFile
file = record { start_cluster = 5; file_size = 1000 }

read_fat_file-contents_example :
    Gives (read_fat_file prompt always private file 300 512 disk) (λ out s'.
      Unchanged prompt prompt-Transfers prompt-Works always always-true 512 540000 private 1024
        private-Layout disk s'
      × ((i : ℕ)
          → i < 300
          → out i
            ≡ contents 512
                (at prompt prompt-Transfers prompt-Works always always-true 512 540000 private 1024
                  private-Layout disk)
                (5 ∷ 6 ∷ [])
                (512 + i)))
read_fat_file-contents_example =
    read_fat_file-contents prompt prompt-Transfers prompt-Works always always-true 512 540000
      private 1024 private-Layout private-Clusters file (5 ∷ 6 ∷ []) 300 512 disk disk-Ready
      two_clusters-Walk refl (omega arith) (omega arith)

abbrev ones : Ram
ones i = 1

five_behind : 4608 + 4 * 1024 ≤ data_cluster_to_absolute_address private 5
unfolding data_cluster_to_absolute_address
five_behind = omega arith

write_fat_file-Written_example :
    Gives (write_fat_file prompt always private 2 file 100 10 ones disk) (λ _.
      Written prompt prompt-Transfers prompt-Works always always-true 512 540000 private 1024
        private-Layout private-Clusters 100 10
        (omega arith)
        (omega arith)
        5
        (6 ∷ [])
        ones
        disk)
write_fat_file-Written_example =
    write_fat_file-Written prompt prompt-Transfers prompt-Works always always-true 512 540000
      private 1024 private-Layout private-Clusters file (5 ∷ 6 ∷ []) 2 100 10 5 (6 ∷ []) ones disk
      disk-Ready two_clusters-Walk (omega arith) (omega arith) (omega arith) (omega arith) refl
      five_behind (omega arith)

read_fat_file-write_fat_file_example :
    Gives
      ((write_fat_file prompt always private 2 file 100 0 ones
          >> read_fat_file prompt always private file 100 0)
        disk)
      (λ out s'. (i : ℕ) → i < 100 → out i ≡ ones i)
read_fat_file-write_fat_file_example =
    read_fat_file-write_fat_file prompt prompt-Transfers prompt-Works always always-true 512 540000
      private 1024 private-Layout private-Clusters file 5 (6 ∷ []) 2 100 ones disk disk-Ready
      two_clusters-Walk (omega arith) (omega arith) five_behind (omega arith)

abbrev a_b : List Chars
a_b = (b'A' ∷ []) ∷ (b'B' ∷ []) ∷ []

find_directory-descend_example :
    find_directory prompt always private []
      (record { label = b'C'; root = parts (parts_of a_b (some (b'F' ∷ []))) })
      disk
    ≡ descend prompt always private [] (root_cluster private) (b'A' ∷ []) [] disk
find_directory-descend_example =
    find_directory-descend prompt always private [] b'C' (b'A' ∷ []) [] (b'B' ∷ []) (b'F' ∷ []) disk

long_file_name_entries_to_name-long_chain_example :
    long_file_name_entries_to_name
      (long_chain (λ i. i + 1) 0 (long_entries_needed 2) 0 (b'A' ∷ b'B' ∷ []))
    ≡ b'A' ∷ b'B' ∷ 0 ∷ []
long_file_name_entries_to_name-long_chain_example =
    long_file_name_entries_to_name-long_chain (λ i. i + 1) 0 (b'A' ∷ b'B' ∷ [])
      ((omega arith, omega arith), ((omega arith, omega arith), tt)) (omega arith)
