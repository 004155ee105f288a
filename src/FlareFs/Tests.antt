-- ===== src/FlareFs/Tests.antt =====
-- A disk in memory that is formatted and mounted again, and the theorems at concrete files.
use flare_os.Prelude.{
  ◌≡◌, refl, Bool, true, false, List, [], ◌∷◌, Option, some, replicate, map_option, set, ◌>>=◌,
}
use flare_os.BlockDevice.MemDisk
use flare_os.BlockDevice.MemDisk.{MemDisk, mem_disk, blank}
use flare_os.FlareFs.State.{Fs, FsFile, install_media, zero_super, zero_entry, flarefs}
use flare_os.FlareFs.Encoding.{dir_of, dir_bytes, entry_of, entry_bytes, super_of, super_bytes}
use flare_os.FlareFs.Io.{
  flarefs_read_sector, flarefs_write_sector, flarefs_write_super, flarefs_write_directory,
  write_directory_from, read_directory_from, write_data_from, read_data_from, clear_from,
}
use flare_os.FlareFs.Ops.{
  same_text, refused_char, valid_from, flarefs_valid_name, find_slot_from, flarefs_find_slot,
  free_entry_from, final_bytes, entry_index, sectors_for, entry_for, put_file, remove_at, cstring,
  store_file, flarefs_write_internal, fs_write_file, remove_slot, fs_remove_file,
}
use flare_os.FlareFs.Mount.{
  accepts_super, dir_read, fresh_super, mount_files, flarefs_mount, flarefs_format,
}

abbrev unmounted : Fs
unmounted = record {
  source_files = [];
  files = [];
  super = zero_super;
  dir = replicate 32 zero_entry;
  writable = false;
  backend = install_media;
}

-- A mounted root with one file, "a", that holds "hi".
abbrev file_a : FsFile
file_a = record { name = b'a' ∷ []; bytes = b'h' ∷ b'i' ∷ []; dir_index = 0 }

abbrev mounted : Fs
mounted = record {
  source_files = [];
  files = file_a ∷ [];
  super = record fresh_super { next_free_sector = 6 };
  dir = set (replicate 32 zero_entry) 0 (record {
    used = 1;
    start_sector = 5;
    sector_count = 1;
    size = 2;
    name = b'a' ∷ replicate 47 0;
  });
  writable = true;
  backend = flarefs;
}

-- Format, write two files, append to the first, remove the second, and mount from the disk alone.
abbrev session : Option (Bool × List FsFile × MemDisk)
session =
    let (_, fs1, d1) = flarefs_format mem_disk unmounted blank in
    let (_, fs2, d2) = fs_write_file mem_disk fs1 d1 (b'a' ∷ []) (b'h' ∷ b'i' ∷ []) false in
    let (_, fs3, d3) = fs_write_file mem_disk fs2 d2 (b'b' ∷ []) (b'x' ∷ []) false in
    let (_, fs4, d4) = fs_write_file mem_disk fs3 d3 (b'a' ∷ []) (b'!' ∷ []) true in
    let (_, fs5, d5) = fs_remove_file mem_disk fs4 d4 (b'b' ∷ []) in
    flarefs_mount mem_disk (λ n. replicate n 7) unmounted d5 >>= λ r. some (r.0, r.1.files, r.2)

session_mounts :
    map_option (λ (r : Bool × List FsFile × MemDisk). r.1) session
    ≡ some (record { name = b'a' ∷ []; bytes = b'h' ∷ b'i' ∷ b'!' ∷ []; dir_index = 0 } ∷ [])
unfolding flarefs_format clear_from flarefs_write_sector flarefs_write_super flarefs_write_directory
    super_bytes dir_bytes entry_bytes write_directory_from MemDisk.write_sector fs_write_file
    flarefs_write_internal flarefs_valid_name valid_from refused_char flarefs_find_slot
    find_slot_from entry_index free_entry_from final_bytes store_file sectors_for entry_for
    write_data_from put_file same_text fs_remove_file remove_slot remove_at flarefs_mount
    flarefs_read_sector MemDisk.read_sector read_directory_from accepts_super super_of dir_read
    dir_of entry_of mount_files read_data_from cstring
session_mounts = refl
