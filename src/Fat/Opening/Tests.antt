-- ===== src/Fat/Opening/Tests.antt =====
-- A file in the root directory of a small volume, opened.
use boba_os.Base.{◌≡◌, refl, false, if◌then◌else◌, ◌==◌, ok, [], ◌∷◌}
use boba_os.Memory.Copy.{within}
use boba_os.Stream.{
  partition_stream_seek, partition_stream_read, disk_stream_read, check_disk_stream,
  disk_stream_seek,
}
use boba_os.Text.{Chars, text, strlen, strcpym, strncpy, strncmp, find_char}
use boba_os.PathTracer.{
  PathTracer, parts, part, file, create_path_tracer, file_name_of, start_trace, fill_path_string,
  get_path_string,
}
use boba_os.Vfsl.{File, no_mode}
use boba_os.Fat.{
  Outcome, done, Disk, absolute_address_to_cluster, seek_read, data_cluster_to_absolute_address,
}
use boba_os.Fat.Table.{get_fat_entry}
use boba_os.Fat.Names.{compare_short_with_name, short_parts, copy_at, slice}
use boba_os.Fat.Directory.{
  find_dir_entry, get_dir_entries, cluster_list, load_clusters, load_cluster, find_loop,
  is_searched,
}
use boba_os.Fat.Room.{dir_entry_bytes}
use boba_os.Fat.Lookup.{find_file, find_directory, find_in, tracer_file_name, root_cluster}
use boba_os.Fat.Api.{open_file, open_or_create, file_of}
use boba_os.Fat.Opening.{open_file-path}
use boba_os.Fat.Tests.{prompt, always, disk, private}

-- The volume with the entry of A.TXT as the first one of the root directory, and none behind it.
abbrev with_a : Disk
with_a = record disk {
  medium = λ a.
      if a == 9216
      then b'A'
      else if within 9217 7 a
      then b' '
      else if a == 9225
      then b'X'
      else if within 9224 3 a
      then b'T'
      else if a == 9227
      then 32
      else if within 9228 500 a
      then 0
      else disk.medium a;
}

abbrev a_txt : Chars
a_txt = b'A' ∷ b'.' ∷ b'T' ∷ b'X' ∷ b'T' ∷ []

abbrev c_a : Chars
c_a = b'C' ∷ b':' ∷ b'/' ∷ a_txt

abbrev tracer : PathTracer
tracer = record { label = b'C'; root = parts (part a_txt file ∷ []) }

c_a-tracer : create_path_tracer always always c_a ≡ ok tracer
unfolding create_path_tracer strlen text
c_a-tracer = refl

abbrev result : Outcome File × Disk
result = open_file prompt always private [] 2 tracer false with_a

abbrev opened : Outcome File → File
opened (done f) = f
opened _ = record { label = 0; path = []; name = []; mode = no_mode; position = 0; size = 0 }

result-done : result ≡ (done (opened result.0), result.1)
unfolding open_file find_file find_directory find_in tracer_file_name open_or_create file_of
    file_name_of root_cluster absolute_address_to_cluster dir_entry_bytes find_dir_entry
    get_dir_entries cluster_list load_clusters load_cluster find_loop is_searched
    compare_short_with_name short_parts get_fat_entry seek_read get_path_string fill_path_string
    start_trace strcpym partition_stream_seek partition_stream_read disk_stream_read
    check_disk_stream disk_stream_seek data_cluster_to_absolute_address find_char copy_at strncpy
    strlen strncmp slice
result-done = refl

open_file-path_example : text (opened result.0).path ≡ text c_a
open_file-path_example =
    open_file-path prompt always private [] 2 always always c_a false with_a c_a-tracer result-done
