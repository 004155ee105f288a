-- ===== src/FlareFs/State.antt =====
-- The state of kernel/fs/ext4.c.
use flare_os.Prelude.{ℕ, Bool, false, List, [], replicate}

pub record FsFile : Type 0 where
  pub name : List ℕ
  pub bytes : List ℕ
  pub dir_index : ℕ

-- `FlareFsSuper`, eight u32.
pub record Super : Type 0 where
  pub magic : ℕ
  pub version : ℕ
  pub start_lba : ℕ
  pub total_sectors : ℕ
  pub dir_entries : ℕ
  pub dir_sectors : ℕ
  pub next_free_sector : ℕ
  pub reserved : ℕ

-- `FlareFsDirEntry`, four u32 and the 48 bytes of the name.
pub record DirEntry : Type 0 where
  pub used : ℕ
  pub start_sector : ℕ
  pub sector_count : ℕ
  pub size : ℕ
  pub name : List ℕ

pub data Backend : Type 0 where
  install_media flarefs : Backend

-- `g_source_files`, `g_files` and `g_file_count` (the lists hold the entries in use), `g_super`,
-- `g_dir`, `g_fs_writable` and `g_backend_name`.
pub record Fs : Type 0 where
  pub source_files : List FsFile
  pub files : List FsFile
  pub super : Super
  pub dir : List DirEntry
  pub writable : Bool
  pub backend : Backend

abbrev pub flarefs_magic : ℕ
flarefs_magic = 0x31534646

abbrev pub flarefs_version : ℕ
flarefs_version = 1

abbrev pub flarefs_lba : ℕ
flarefs_lba = 321

abbrev pub flarefs_sectors : ℕ
flarefs_sectors = 256

abbrev pub flarefs_dir_sectors : ℕ
flarefs_dir_sectors = 4

abbrev pub fs_max_root_files : ℕ
fs_max_root_files = 32

abbrev pub zero_super : Super
zero_super = record {
  magic = 0;
  version = 0;
  start_lba = 0;
  total_sectors = 0;
  dir_entries = 0;
  dir_sectors = 0;
  next_free_sector = 0;
  reserved = 0;
}

abbrev pub zero_entry : DirEntry
zero_entry = record {
  used = 0;
  start_sector = 0;
  sector_count = 0;
  size = 0;
  name = replicate 48 0;
}

-- `fs_reset_active`, which leaves the files of the install medium alone.
unfoldable pub fs_reset_active : Fs → Fs
fs_reset_active fs = record {
  source_files = fs.source_files;
  files = [];
  super = zero_super;
  dir = replicate 32 zero_entry;
  writable = false;
  backend = install_media;
}
