-- ===== src/FlareFs/Ops.antt =====
-- The operations of kernel/fs/ext4.c on FlareFS. The `Bool` of a result is the C function's int.
use flare_os.Prelude.{
  ℕ, zero, suc, ◌+◌, ◌-◌, ◌/◌, ◌%◌, ◌^◌, Bool, true, false, not, ◌&&◌, ◌||◌, List, [], ◌∷◌, ◌++◌,
  Option, none, some, ltb, leb, ◌==◌, if◌then◌else◌, length, replicate, get_or, set, map_option,
}
use flare_os.BlockDevice.{BlockDevice}
use flare_os.FlareFs.State.{Fs, FsFile, DirEntry, zero_entry, fs_max_root_files}
use flare_os.FlareFs.Io.{flarefs_write_super, flarefs_write_directory, write_data_from}

-- `strcmp(a, b) == 0` on two texts: `CString.Comparing.strcmp-zero_iff`.
unfoldable pub same_text : List ℕ → List ℕ → Bool
same_text [] [] = true
same_text [] (y ∷ b) = false
same_text (x ∷ a) [] = false
same_text (x ∷ a) (y ∷ b) = x == y && same_text a b

-- `char` is signed, so `ch <= ' '` holds of the bytes from 128 on too.
unfoldable pub refused_char : ℕ → Bool
refused_char ch = leb ch b' ' || (leb 128 ch || (ch == b'/' || ch == 0x5c))

unfoldable pub valid_from : ℕ → List ℕ → Bool
valid_from len [] = true
valid_from len (ch ∷ name) =
    if leb 48 (len + 1) || refused_char ch then false else valid_from (len + 1) name

unfoldable pub flarefs_valid_name : List ℕ → Bool
flarefs_valid_name [] = false
flarefs_valid_name (ch ∷ name) = valid_from 0 (ch ∷ name)

-- `none` is the -1 of the source.
unfoldable pub find_slot_from : ℕ → List FsFile → List ℕ → Option ℕ
find_slot_from i [] name = none
find_slot_from i (file ∷ files) name =
    if same_text file.name name then some i else find_slot_from (i + 1) files name

unfoldable pub flarefs_find_slot : Fs → List ℕ → Option ℕ
flarefs_find_slot fs name = find_slot_from 0 fs.files name

-- The first unused entry among the first `left` of the directory.
unfoldable pub free_entry_from : ℕ → ℕ → List DirEntry → Option ℕ
free_entry_from i zero dir = none
free_entry_from i (suc left) [] = none
free_entry_from i (suc left) (e ∷ dir) =
    if e.used == 0 then some i else free_entry_from (i + 1) left dir

abbrev pub no_file : FsFile
no_file = record { name = []; bytes = []; dir_index = 0 }

-- What the file is to hold: the old contents and the new where text is appended to a file.
unfoldable pub final_bytes : Fs → Option ℕ → List ℕ → Bool → List ℕ
final_bytes fs none bytes append = bytes
final_bytes fs (some slot) bytes append =
    if append then (get_or fs.files slot no_file).bytes ++ bytes else bytes

-- The directory entry of the file: its own, or the first free one while there is room for a file.
unfoldable pub entry_index : Fs → Option ℕ → Option ℕ
entry_index fs (some slot) = some (get_or fs.files slot no_file).dir_index
entry_index fs none =
    if leb fs_max_root_files (length fs.files)
    then none
    else free_entry_from 0 fs.super.dir_entries fs.dir

unfoldable pub sectors_for : List ℕ → ℕ
sectors_for bytes = let n = (length bytes + 511) / 512 % 2 ^ 32 in if n == 0 then 1 else n

-- The entry of a file written at `start`.
unfoldable pub entry_for : List ℕ → List ℕ → ℕ → DirEntry
entry_for name bytes start = record {
  used = 1;
  start_sector = start;
  sector_count = sectors_for bytes;
  size = length bytes % 2 ^ 32;
  name = name ++ replicate (48 - length name) 0;
}

-- `g_files[file_index]` after a write: the slot's, or a new one at the end.
unfoldable pub put_file : List FsFile → Option ℕ → FsFile → List FsFile
put_file files none file = files ++ file ∷ []
put_file files (some slot) file = set files slot file

unfoldable pub remove_at : ℕ → List FsFile → List FsFile
remove_at i [] = []
remove_at zero (file ∷ files) = files
remove_at (suc i) (file ∷ files) = file ∷ remove_at i files

-- The text in a name field: the bytes before the first NUL. Without one the C code reads past the
-- field; `none` stands for that.
unfoldable pub cstring : List ℕ → Option (List ℕ)
cstring [] = none
cstring (c ∷ s) = if c == 0 then some [] else map_option (◌∷◌ c) (cstring s)

module _ {D : Type 0} (dev : BlockDevice D) where
  -- From the check for room on: the entry and the contents are known.
  unfoldable pub store_file : Fs → D → List ℕ → List ℕ → Option ℕ → ℕ → Bool × Fs × D
  store_file fs d name bytes slot index =
      let start = fs.super.next_free_sector in
      let count = sectors_for bytes in
      if ltb fs.super.total_sectors ((start + count) % 2 ^ 32)
      then (false, fs, d)
      else (let (wrote, d1) = write_data_from dev d start bytes 0 count in
          let fs1 : Fs = record fs {
            dir = set fs.dir index (entry_for name bytes start);
            super = record (fs.super) { next_free_sector = (start + count) % 2 ^ 32 };
          } in
          let (wrote_dir, d2) = flarefs_write_directory dev d1 fs1.dir in
          let (wrote_super, d3) = flarefs_write_super dev d2 fs1.super in
          let file : FsFile = record { name = name; bytes = bytes; dir_index = index } in
          if not wrote
          then (false, fs, d1)
          else if not wrote_dir
          then (false, fs1, d2)
          else if not wrote_super
          then (false, fs1, d3)
          else (true, record fs1 { files = put_file fs.files slot file }, d3))

  unfoldable pub flarefs_write_internal : Fs → D → List ℕ → List ℕ → Bool → Bool × Fs × D
  flarefs_write_internal fs d name bytes append =
      if not fs.writable || not (flarefs_valid_name name)
      then (false, fs, d)
      else (let slot = flarefs_find_slot fs name in
          elim (entry_index fs slot) [
            | none ↦ (false, fs, d)
            | some index ↦ store_file fs d name (final_bytes fs slot bytes append) slot index
          ])

  unfoldable pub fs_write_file : Fs → D → List ℕ → List ℕ → Bool → Bool × Fs × D
  fs_write_file fs d name bytes append = flarefs_write_internal fs d name bytes append

  -- The part of `fs_remove_file` behind its first test.
  unfoldable pub remove_slot : Fs → D → ℕ → Bool × Fs × D
  remove_slot fs d slot =
      let index = (get_or fs.files slot no_file).dir_index in
      let fs1 : Fs = record fs { dir = set fs.dir index zero_entry } in
      let (wrote_dir, d1) = flarefs_write_directory dev d fs1.dir in
      if leb fs.super.dir_entries index
      then (false, fs, d)
      else if not wrote_dir
      then (false, fs1, d1)
      else (true, record fs1 { files = remove_at slot fs.files }, d1)

  unfoldable pub fs_remove_file : Fs → D → List ℕ → Bool × Fs × D
  fs_remove_file fs d name = elim (flarefs_find_slot fs name) [
    | none ↦ (false, fs, d)
    | some slot ↦ if not fs.writable then (false, fs, d) else remove_slot fs d slot
  ]
