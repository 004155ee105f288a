-- ===== src/FlareFs/Mount.antt =====
-- Mounting, formatting and installing FlareFS, and what kernel/fs/ext4.c exports.
use flare_os.Prelude.{
  ℕ, ◌+◌, ◌-◌, Bool, true, false, not, ◌&&◌, ◌||◌, List, [], ◌∷◌, ◌++◌, Option, none, some, leb,
  ◌==◌, if◌then◌else◌, length, take, replicate, get_or, get_elem?, map_option, ◌>>=◌,
}
use flare_os.BlockDevice.{BlockDevice}
use flare_os.FlareFs.State.{
  Fs, FsFile, Super, DirEntry, Backend, flarefs, install_media, zero_entry, flarefs_magic,
  flarefs_version, flarefs_lba, flarefs_sectors, flarefs_dir_sectors, fs_max_root_files,
  fs_reset_active,
}
use flare_os.FlareFs.Encoding.{super_of, dir_of}
use flare_os.FlareFs.Io.{
  flarefs_read_sector, flarefs_write_super, flarefs_write_directory, read_data_from,
  read_directory_from, clear_from,
}
use flare_os.FlareFs.Ops.{cstring, fs_write_file}

-- The tests of `flarefs_mount` on the superblock.
unfoldable pub accepts_super : Super → Bool
accepts_super s =
    (s.magic == flarefs_magic && s.version == flarefs_version)
    && (s.start_lba == flarefs_lba
        && (s.total_sectors == flarefs_sectors
            && (leb s.dir_entries fs_max_root_files && s.dir_sectors == flarefs_dir_sectors)))

-- `g_dir` after `bytes` were copied to its start and the rest is zero.
unfoldable pub dir_read : List ℕ → List DirEntry
dir_read bytes = dir_of 32 (bytes ++ replicate (2048 - length bytes) 0)

-- What `flarefs_format` writes as its superblock.
abbrev pub fresh_super : Super
fresh_super = record {
  magic = flarefs_magic;
  version = flarefs_version;
  start_lba = flarefs_lba;
  total_sectors = flarefs_sectors;
  dir_entries = fs_max_root_files;
  dir_sectors = flarefs_dir_sectors;
  next_free_sector = 5;
  reserved = 0;
}

-- `active_clone_source`
unfoldable pub active_clone_source : Fs → Fs
active_clone_source fs = record fs {
  files = fs.source_files;
  backend = install_media;
  writable = false;
}

-- `fresh n` is what the `n` bytes that `kmalloc` returns hold.
module _ {D : Type 0} (dev : BlockDevice D) (fresh : ℕ → List ℕ) where
  -- The loop of `flarefs_mount` over the directory, at entry `i`; `none` is a name without a NUL.
  unfoldable pub mount_files : D → ℕ → List DirEntry → List FsFile → Option (Bool × List FsFile × D)
  mount_files d i [] files = some (true, files, d)
  mount_files d i (e ∷ dir) files =
      let (bytes, d') =
        read_data_from dev d e.start_sector e.size (fresh e.size) 0 e.sector_count in
      let skipped = mount_files d (i + 1) dir files in
      let mounted = λ (data' : List ℕ) (text : List ℕ).
        mount_files d' (i + 1) dir
          (files ++ record { name = text; bytes = data'; dir_index = i } ∷ []) in
      if e.used == 0 || (get_or e.name 0 0 == 0 || leb fs_max_root_files (length files))
      then skipped
      else elim bytes [ none ↦ some (false, files, d') | some b ↦ cstring e.name >>= mounted b ]

  unfoldable pub flarefs_mount : Fs → D → Option (Bool × Fs × D)
  flarefs_mount fs d =
      if not (dev.present d)
      then some (false, fs, d)
      else (let (sector, d1) = flarefs_read_sector dev d 0 in
          elim sector [
            | none ↦ some (false, fs, d1)
            | some bytes ↦
                let fs1 : Fs = record fs { super = super_of bytes } in
                let (read, table, d2) = read_directory_from dev d1 0 4 in
                let fs2 : Fs = record fs1 { dir = dir_read table } in
                if not (accepts_super fs1.super)
                then some (false, fs1, d1)
                else if not read
                then some (false, fs2, d2)
                else (mount_files d2 0 (take fs2.super.dir_entries fs2.dir) [] >>= λ r.
                    (let fs3 : Fs = record fs2 { files = r.1 } in
                      if r.0
                      then some (true, record fs3 { backend = flarefs; writable = true }, r.2)
                      else some (false, fs3, r.2)))
          ])

  -- `source` is what the ext4 reader found on the install medium, and `d` the disk after `ata_init`.
  unfoldable pub fs_init : Fs → List FsFile → D → Option (Fs × D)
  fs_init fs source d =
      flarefs_mount (record (fs_reset_active fs) { source_files = source }) d >>= λ r.
      some (if r.0 then r.1 else active_clone_source r.1, r.2)

module _ {D : Type 0} (dev : BlockDevice D) where
  unfoldable pub flarefs_format : Fs → D → Bool × Fs × D
  flarefs_format fs d =
      let (cleared, d1) = clear_from dev d 0 flarefs_sectors in
      let fs1 : Fs = record fs { super = fresh_super; dir = replicate 32 zero_entry } in
      let (wrote_super, d2) = flarefs_write_super dev d1 fs1.super in
      let (wrote_dir, d3) = flarefs_write_directory dev d2 fs1.dir in
      if not (dev.present d)
      then (false, fs, d)
      else if not cleared
      then (false, fs, d1)
      else if not wrote_super
      then (false, fs1, d2)
      else if not wrote_dir
      then (false, fs1, d3)
      else (true, record fs1 { files = []; backend = flarefs; writable = true }, d3)

  -- The copies that `fs_install` takes of the files, written back one by one.
  unfoldable pub install_files : Fs → D → List FsFile → Bool × Fs × D
  install_files fs d [] = (true, fs, d)
  install_files fs d (file ∷ files) =
      let (ok, fs', d') = fs_write_file dev fs d file.name file.bytes false in
      elim ok [ true ↦ install_files fs' d' files | false ↦ (false, fs', d') ]

  unfoldable pub fs_install : Fs → D → Bool × Fs × D
  fs_install fs d =
      let (ok, fs', d') = flarefs_format fs d in
      elim ok [ true ↦ install_files fs' d' fs.files | false ↦ (false, fs', d') ]

unfoldable pub fs_is_writable : Fs → Bool
fs_is_writable fs = fs.writable

unfoldable pub fs_backend_name : Fs → Backend
fs_backend_name fs = fs.backend

unfoldable pub fs_file_count : Fs → ℕ
fs_file_count fs = length fs.files

-- `none` is NULL.
unfoldable pub fs_file_name : Fs → ℕ → Option (List ℕ)
fs_file_name fs index = map_option (λ (file : FsFile). file.name) (get_elem? fs.files index)

unfoldable pub fs_file_data : Fs → ℕ → Option (List ℕ)
fs_file_data fs index = map_option (λ (file : FsFile). file.bytes) (get_elem? fs.files index)
