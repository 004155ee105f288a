-- ===== src/FlareFs/Examples.antt =====
-- The theorems on FlareFS at concrete files and disks.
use flare_os.Prelude.{
  ◌*◌, ℕ, ◌+◌, ◌≤◌, ◌<◌, ◌≡◌, ◌≢◌, ◌↔◌, get_elem?, refl, true, false, List, [], ◌∷◌, ◌++◌, none,
  some, arith, length, replicate, if◌then◌else◌, inr, inl, set, ◌==◌,
}
use flare_os.BlockDevice.MemDisk
use flare_os.BlockDevice.MemDisk.{MemDisk, mem_disk, blank}
use flare_os.FlareFs.State.{Fs, FsFile, DirEntry, flarefs, zero_entry}
use flare_os.FlareFs.Mount.{fresh_super}
use flare_os.FlareFs.Encoding.{
  dir_of, dir_bytes, dir_of-dir_bytes, super_of, super_bytes, super_of-super_bytes, entry_bytes,
}
use flare_os.FlareFs.Io.{
  flarefs_write_sector, flarefs_write_super, flarefs_write_directory, write_directory_from,
  write_data_from,
}
use flare_os.FlareFs.Ops.{
  same_text, refused_char, valid_from, flarefs_valid_name, find_slot_from, flarefs_find_slot,
  final_bytes, entry_index, sectors_for, entry_for, put_file, store_file, flarefs_write_internal,
  fs_write_file, remove_slot, fs_remove_file, free_entry_from,
}
use flare_os.FlareFs.Names.{NameChars, flarefs_valid_name_iff}
use flare_os.FlareFs.Lookup.{lookup, written, lookup-fs_write_file}
use flare_os.FlareFs.Removal.{lookup-fs_remove_file}
use flare_os.FlareFs.Reuse.{fs_remove_file_shares_entry}
use flare_os.FlareFs.Placed.{IsPlaced, Placed-replicate, fs_write_file-IsPlaced}
use flare_os.FlareFs.Failure.{fs_write_file_fails}
use flare_os.FlareFs.Sectors.{chunk, fs_write_file-Keeps, fs_write_file-stores}

-- A mounted root with one file, "a", that holds "hi".
abbrev name_a : List ℕ
name_a = b'a' ∷ []

abbrev file_a : FsFile
file_a = record { name = name_a; bytes = b'h' ∷ b'i' ∷ []; dir_index = 0 }

abbrev entry_a : DirEntry
entry_a = record {
  used = 1;
  start_sector = 5;
  sector_count = 1;
  size = 2;
  name = b'a' ∷ replicate 47 0;
}

abbrev mounted : Fs
mounted = record {
  source_files = [];
  files = file_a ∷ [];
  super = record fresh_super { next_free_sector = 6 };
  dir = set (replicate 32 zero_entry) 0 entry_a;
  writable = true;
  backend = flarefs;
}

-- A disk whose first directory sector is defective.
abbrev worn : MemDisk
worn = record blank { defect = λ n. n == 322 }

appended : (fs_write_file mem_disk mounted blank name_a (b'!' ∷ []) true).0 ≡ true
unfolding flarefs_write_sector flarefs_write_super flarefs_write_directory super_bytes dir_bytes
    entry_bytes write_directory_from MemDisk.write_sector fs_write_file flarefs_write_internal
    flarefs_valid_name valid_from refused_char flarefs_find_slot find_slot_from entry_index
    final_bytes store_file sectors_for entry_for write_data_from put_file same_text
appended = refl

removed : (fs_remove_file mem_disk mounted blank name_a).0 ≡ true
unfolding flarefs_write_sector flarefs_write_directory dir_bytes entry_bytes write_directory_from
    MemDisk.write_sector flarefs_find_slot find_slot_from same_text fs_remove_file remove_slot
removed = refl

worn_write : (fs_write_file mem_disk mounted worn name_a (b'!' ∷ []) true).0 ≡ false
unfolding flarefs_write_sector flarefs_write_super flarefs_write_directory super_bytes dir_bytes
    entry_bytes write_directory_from MemDisk.write_sector fs_write_file flarefs_write_internal
    flarefs_valid_name valid_from refused_char flarefs_find_slot find_slot_from entry_index
    final_bytes store_file sectors_for entry_for write_data_from put_file same_text
worn_write = refl

flarefs_valid_name_iff_example :
    (flarefs_valid_name name_a ≡ true)
    ↔ ((1 ≤ length name_a) × (length name_a ≤ 47) × NameChars name_a)
flarefs_valid_name_iff_example = flarefs_valid_name_iff name_a

dir_of-dir_bytes_example :
    dir_of 2 (dir_bytes (entry_a ∷ zero_entry ∷ []) ++ []) ≡ entry_a ∷ zero_entry ∷ []
dir_of-dir_bytes_example = dir_of-dir_bytes (entry_a ∷ zero_entry ∷ []) [] (omega arith)

super_of-super_bytes_example : super_of (super_bytes fresh_super ++ replicate 480 0) ≡ fresh_super
super_of-super_bytes_example = super_of-super_bytes fresh_super (replicate 480 0) (omega arith)

lookup-fs_write_file_example :
    lookup name_a (fs_write_file mem_disk mounted blank name_a (b'!' ∷ []) true).1.files ≡ (
      if same_text name_a name_a
      then some (written (lookup name_a mounted.files) (b'!' ∷ []) true)
      else lookup name_a mounted.files)
lookup-fs_write_file_example =
    lookup-fs_write_file mem_disk mounted blank name_a (b'!' ∷ []) true name_a appended

lookup-fs_remove_file_example :
    lookup name_a (fs_remove_file mem_disk mounted blank name_a).1.files
    ≡ (if same_text name_a name_a then none else lookup name_a mounted.files)
unfolding lookup
lookup-fs_remove_file_example =
    lookup-fs_remove_file mem_disk mounted blank name_a name_a (refl, tt) removed

fs_write_file_fails_example :
    (fs_write_file mem_disk mounted worn name_a (b'!' ∷ []) true).1.files ≡ mounted.files
fs_write_file_fails_example =
    fs_write_file_fails mem_disk mounted worn name_a (b'!' ∷ []) true worn_write

stored_b :
    (fs_write_file mem_disk
      (fs_remove_file mem_disk mounted worn name_a).1
      blank
      (b'b' ∷ [])
      (b'!' ∷ [])
      false).0
    ≡ true
unfolding flarefs_write_sector flarefs_write_super flarefs_write_directory super_bytes dir_bytes
    entry_bytes write_directory_from MemDisk.write_sector fs_write_file flarefs_write_internal
    flarefs_valid_name valid_from refused_char flarefs_find_slot find_slot_from entry_index
    final_bytes store_file sectors_for entry_for write_data_from put_file same_text fs_remove_file
    remove_slot free_entry_from
stored_b = refl

fs_remove_file_shares_entry_example :
    ((fs_remove_file mem_disk mounted worn name_a).0 ≡ false)
    × ((fs_write_file mem_disk
          (fs_remove_file mem_disk mounted worn name_a).1
          blank
          (b'b' ∷ [])
          (b'!' ∷ [])
          false).1.files
        ≡ file_a ∷ record { name = b'b' ∷ []; bytes = b'!' ∷ []; dir_index = 0 } ∷ [])
unfolding flarefs_find_slot find_slot_from same_text flarefs_write_directory write_directory_from
    flarefs_write_sector MemDisk.write_sector dir_bytes entry_bytes
fs_remove_file_shares_entry_example =
    fs_remove_file_shares_entry mem_disk mounted worn blank name_a (b'b' ∷ []) (b'!' ∷ []) 0 refl
      refl refl (omega arith) (omega arith) tt refl stored_b

mounted-IsPlaced : IsPlaced mounted
mounted-IsPlaced =
    (omega arith, omega arith, omega arith, (inr (omega arith, omega arith), Placed-replicate 6 31))

fs_write_file-IsPlaced_example :
    let after = fs_write_file mem_disk mounted blank name_a (b'!' ∷ []) true in
    IsPlaced after.1
    × ((j i : ℕ) (e : DirEntry)
        → get_elem? mounted.dir j ≡ some e
        → e.used ≢ 0
        → i < e.sector_count
        → after.2.sectors (321 + e.start_sector + i) ≡ blank.sectors (321 + e.start_sector + i))
unfolding flarefs_find_slot find_slot_from same_text final_bytes
fs_write_file-IsPlaced_example =
    fs_write_file-IsPlaced mem_disk mounted blank name_a (b'!' ∷ []) true mounted-IsPlaced
      (omega arith)

fs_write_file-Keeps_example :
    (fs_write_file mem_disk mounted blank name_a (b'!' ∷ []) true).2.sectors 326 ≡ blank.sectors 326
unfolding flarefs_find_slot find_slot_from same_text final_bytes
fs_write_file-Keeps_example =
    fs_write_file-Keeps mem_disk mounted blank name_a (b'!' ∷ []) true 326 (omega arith)
      (omega arith) (omega arith) (inr (inl (omega arith, omega arith)))

fs_write_file-stores_example :
    let after = fs_write_file mem_disk mounted blank name_a (b'!' ∷ []) true in
    let final = final_bytes mounted (flarefs_find_slot mounted name_a) (b'!' ∷ []) true in
    (after.1.super.next_free_sector ≡ 6 + sectors_for final)
    × (length final ≤ sectors_for final * 512)
    × (6 + sectors_for final ≤ 256)
    × ((i : ℕ) → i < sectors_for final → after.2.sectors (321 + 6 + i) ≡ chunk final i)
unfolding flarefs_find_slot find_slot_from same_text final_bytes
fs_write_file-stores_example =
    fs_write_file-stores mem_disk mounted blank name_a (b'!' ∷ []) true (omega arith) (omega arith)
      (omega arith) appended
