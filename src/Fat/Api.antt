-- ===== src/Fat/Api.antt =====
-- fat32.c: attaching to a partition, and the operations that the file system layer calls.
use boba_os.Base.{
  ℕ, ◌+◌, ◌-◌, ◌*◌, ◌/◌, ◌%◌, ◌^◌, Ram, Option, none, some, Bool, true, false, ◌&&◌, not,
  if◌then◌else◌, ltb, leb, ◌==◌, [], ◌∷◌, replicate, Errno, Result, ok, err, add64,
}
use boba_os.Stream.{Driver, PartitionStream, partition_stream_create, partition_stream_read}
use boba_os.Text.{Chars, strcpym, strncmp}
use boba_os.PathTracer.{PathTracer, create_path_tracer, get_path_string, max_path_size}
use boba_os.Vfsl.{File, no_mode}
use boba_os.Fat.{
  done, failed, Disk, Act, ◌>>=◌, ◌>>◌, pure, fail, defined, attempt, FatPrivate, boot_record_of,
  private_of, fat_entry_used, kzalloc_or,
}
use boba_os.Fat.Table.{get_free_fat_entry_cluster, write_fat_entry}
use boba_os.Fat.Names.{slice, is_same, start_cluster, attribute_archive}
use boba_os.Fat.Directory.{find_dir_entry, update_directory_entry}
use boba_os.Fat.Room.{FatFile, create_fat_file_in_dir}
use boba_os.Fat.Lookup.{find_directory, find_file, tracer_file_name}
use boba_os.Fat.Files.{read_fat_file, write_fat_file}

-- What a partition label leads to: the offset and the size of the partition, and the size of its disk.
abbrev pub Volume : Type 0
Volume = Option (ℕ × ℕ × Option ℕ)

module _ (d : Driver) (alloc : ℕ → Bool) (label : ℕ) where
  -- attachToDisk once both streams are there.
  unfoldable pub attach_streams :
      (m : Ram) (read_stream write_stream : PartitionStream) → Option (FatPrivate × Disk)
  attach_streams m read_stream write_stream =
      elim (partition_stream_read d m read_stream 90 (alloc 5)) [
        | err e ↦ none
        | ok (boot, read_stream') ↦
            if alloc 6
            then some (
              private_of (boot_record_of boot),
              record {
                medium = m;
                read_stream = read_stream';
                write_stream = write_stream;
                allocs = 7;
              },
            )
            else none
      ]

  -- The outer `none` is a write through NULL, the inner one the answer NULL.
  unfoldable pub attach_to_disk : (m : Ram) → Volume → Option (Option (FatPrivate × Disk))
  attach_to_disk m volume =
      if not (alloc 0)
      then some none
      else elim (partition_stream_create volume label 0 (λ k. alloc (1 + k))) [
        | none ↦ none
        | some read_stream ↦ elim (partition_stream_create volume label 0 (λ k. alloc (3 + k))) [
          | none ↦ none
          | some write_stream ↦ elim read_stream [
            | none ↦ some none
            | some r ↦ elim write_stream [ none ↦ some none | some w ↦ some (attach_streams m r w) ]
          ]
        ]
      ]

  -- A read that fails leaves what the buffer on the stack held before.
  unfoldable pub resolve : (m : Ram) → Volume → (garbage : Ram) → Option Bool
  resolve m volume garbage = elim (partition_stream_create volume label 0 alloc) [
    | none ↦ none
    | some none ↦ none
    | some (some stream) ↦
        let header : Ram = elim (partition_stream_read d m stream 512 (alloc 2)) [
          | err e ↦ garbage
          | ok (out, stream') ↦ out
        ] in
        some (
          is_same (
            strncmp (slice header 82 8) (b'F' ∷ b'A' ∷ b'T' ∷ b'3' ∷ b'2' ∷ b' ' ∷ b' ' ∷ b' ' ∷ [])
              8))
  ]

-- `rounds` is what the loops with no bound of their own may take, and `garbage` what the buffers on
-- the stack hold.
module _ (d : Driver) (alloc : ℕ → Bool) (p : FatPrivate) (garbage : Chars) (rounds : ℕ) where
  -- A call of kzalloc whose caller sees whether there is a block.
  abbrev pub kzalloc_got : Act Bool
  kzalloc_got s = (done (alloc s.allocs), record s { allocs = s.allocs + 1 })

  -- The file of the answer. A path that does not fit is a store behind an array, and a path string
  -- that is NULL is read.
  unfoldable pub file_of : PathTracer → FatFile → Act File
  file_of tracer fat_file = do
    kzalloc_or alloc (fail Errno.enmem)
    got ← kzalloc_got
    answer ← defined (get_path_string got tracer)
    printed ← defined answer
    path ← defined (strcpym (replicate max_path_size 0) printed max_path_size)
    last ← tracer_file_name d alloc p garbage tracer
    name ← defined (strcpym (replicate max_path_size 0) last max_path_size)
    pure (record {
      label = tracer.label;
      path = path;
      name = name;
      mode = no_mode;
      position = 0;
      size = fat_file.file_size;
    })

  unfoldable pub create_missing : PathTracer → Act FatFile
  create_missing tracer = do
    dir ← find_directory d alloc p garbage tracer
    name ← tracer_file_name d alloc p garbage tracer
    create_fat_file_in_dir d alloc p rounds garbage dir name

  -- A file that is not found is created where the mode asks for it.
  unfoldable pub open_or_create : PathTracer → (create : Bool) → Result FatFile → Act FatFile
  open_or_create tracer create (ok fat_file) = pure fat_file
  open_or_create tracer true (err Errno.enfound) = create_missing tracer
  open_or_create tracer create (err e) = fail e

  unfoldable pub open_file : PathTracer → (create : Bool) → Act File
  open_file tracer create = do
    found ← attempt (find_file d alloc p garbage tracer)
    fat_file ← open_or_create tracer create found
    file_of tracer fat_file

  -- createPathTracer on the path of an open file: at most 256 calls of kzalloc are its own.
  unfoldable pub trace : (volume_exists : ℕ → Bool) → (path : Chars) → Act PathTracer
  trace volume_exists path s =
      let s' : Disk = record s { allocs = s.allocs + 256 } in
      elim (create_path_tracer volume_exists (λ k. alloc (s.allocs + k)) path) [
        | err e ↦ (failed e, s')
        | ok tracer ↦ (done tracer, s')
      ]

  unfoldable pub read_file : (volume_exists : ℕ → Bool) → File → (size : ℕ) → Act Ram
  read_file volume_exists file size = do
    tracer ← trace volume_exists file.path
    fat_file ← find_file d alloc p garbage tracer
    read_fat_file d alloc p fat_file size file.position

  -- The first cluster of a file that has none. Any failure to find one is -EDISKSPACE.
  unfoldable pub give_cluster : FatFile → Act FatFile
  give_cluster fat_file = elim (fat_file.start_cluster == 0) [
    | false ↦ pure fat_file
    | true ↦ attempt (get_free_fat_entry_cluster d alloc p) >>= λ found. elim found [
      | err e ↦ fail Errno.ediskspace
      | ok cluster ↦ elim (cluster == 0) [
        | true ↦ fail Errno.ediskspace
        | false ↦
            write_fat_entry d alloc p cluster fat_entry_used
            >> pure (record fat_file { start_cluster = cluster })
      ]
    ]
  ]

  -- The entry with a new size, and with a first cluster where the file had none.
  unfoldable pub resized : (entry : Ram) (size given : ℕ) → Ram
  resized entry size given k =
      if leb 28 k && ltb k 32
      then size / 2 ^ (8 * (k - 28)) % 2 ^ 8
      else if ltb 0 given && leb 20 k && ltb k 22
      then given / 2 ^ 16 / 2 ^ (8 * (k - 20)) % 2 ^ 8
      else if ltb 0 given && leb 26 k && ltb k 28
      then given / 2 ^ (8 * (k - 26)) % 2 ^ 8
      else entry k

  -- The directory entry of a file that was written.
  unfoldable pub update_entry : PathTracer → (size given : ℕ) → Act (Unit {0})
  update_entry tracer size given = do
    dir ← find_directory d alloc p garbage tracer
    name ← tracer_file_name d alloc p garbage tracer
    entry ← find_dir_entry d alloc p garbage (start_cluster dir) name attribute_archive
    update_directory_entry d alloc p rounds (start_cluster dir) entry (resized entry size given)

  -- The cluster that writeFile has given the file, or 0.
  abbrev pub given_cluster : FatFile → FatFile → ℕ
  given_cluster before after_it = if before.start_cluster == 0 then after_it.start_cluster else 0

  unfoldable pub write_file :
      (volume_exists : ℕ → Bool) → File → (bytes : Ram) → (size : ℕ) → Act (Unit {0})
  write_file volume_exists file bytes size = do
    tracer ← trace volume_exists file.path
    found ← find_file d alloc p garbage tracer
    fat_file ← give_cluster found
    let start = if file.mode.append then file.size else file.position
    write_fat_file d alloc p rounds fat_file size start bytes
    update_entry tracer (add64 start size) (given_cluster found fat_file)
