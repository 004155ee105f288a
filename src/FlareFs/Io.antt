-- ===== src/FlareFs/Io.antt =====
-- The sector traffic of kernel/fs/ext4.c. Sector numbers are u32; a loop stops at its first failure.
use flare_os.Prelude.{
  ℕ, zero, suc, ◌+◌, ◌-◌, ◌*◌, ◌%◌, ◌^◌, Bool, true, false, List, [], ◌++◌, Option, none, some, leb,
  if◌then◌else◌, length, take, drop, replicate, min,
}
use flare_os.BlockDevice.{BlockDevice}
use flare_os.FlareFs.State.{DirEntry, Super, flarefs_lba}
use flare_os.FlareFs.Encoding.{super_bytes, dir_bytes}

-- A 512-byte sector buffer that was zeroed and has `bytes` copied to its start.
abbrev pub sector_of : List ℕ → List ℕ
sector_of bytes = bytes ++ replicate (512 - length bytes) 0

-- What `memcpy(buffer + offset, bytes, …)` makes of a buffer.
abbrev pub copy_at : List ℕ → ℕ → List ℕ → List ℕ
copy_at buffer offset bytes = take offset buffer ++ (bytes ++ drop (offset + length bytes) buffer)

abbrev pub lba : ℕ → ℕ
lba sector = (flarefs_lba + sector) % 2 ^ 32

module _ {D : Type 0} (dev : BlockDevice D) where
  unfoldable pub flarefs_read_sector : D → ℕ → Option (List ℕ) × D
  flarefs_read_sector d sector = dev.read_sector d (lba sector)

  unfoldable pub flarefs_write_sector : D → ℕ → List ℕ → Bool × D
  flarefs_write_sector d sector buffer = dev.write_sector d (lba sector) buffer

  unfoldable pub flarefs_write_super : D → Super → Bool × D
  flarefs_write_super d super = flarefs_write_sector d 0 (sector_of (super_bytes super))

  -- The loop of `flarefs_write_directory` from sector `sector` on, with `left` sectors left.
  unfoldable pub write_directory_from : D → List ℕ → ℕ → ℕ → Bool × D
  write_directory_from d src sector zero = (true, d)
  write_directory_from d src sector (suc left) =
      let (ok, d') = flarefs_write_sector d (1 + sector) (take 512 (drop (sector * 512) src)) in
      elim ok [ true ↦ write_directory_from d' src (sector + 1) left | false ↦ (false, d') ]

  unfoldable pub flarefs_write_directory : D → List DirEntry → Bool × D
  flarefs_write_directory d dir = write_directory_from d (dir_bytes dir) 0 4

  -- The directory sectors that `flarefs_mount` reads, from sector `sector` on: whether all could be
  -- read, and the bytes of those before the first failure.
  unfoldable pub read_directory_from : D → ℕ → ℕ → Bool × List ℕ × D
  read_directory_from d sector zero = (true, [], d)
  read_directory_from d sector (suc left) =
      let (buffer, d') = flarefs_read_sector d (1 + sector) in
      elim buffer [
        | none ↦ (false, [], d')
        | some b ↦
            let (ok, bytes, d'') = read_directory_from d' (sector + 1) left in (ok, b ++ bytes, d'')
      ]

  -- The data loop of `flarefs_write_internal`.
  unfoldable pub write_data_from : D → ℕ → List ℕ → ℕ → ℕ → Bool × D
  write_data_from d start bytes sector zero = (true, d)
  write_data_from d start bytes sector (suc left) =
      let (ok, d') =
        flarefs_write_sector d ((start + sector) % 2 ^ 32)
          (sector_of (take 512 (drop (sector * 512) bytes))) in
      elim ok [ true ↦ write_data_from d' start bytes (sector + 1) left | false ↦ (false, d') ]

  -- The data loop of `flarefs_mount`, into the buffer that `kmalloc` gave: it reads a sector before it
  -- tests whether the file has ended.
  unfoldable pub read_data_from : D → ℕ → ℕ → List ℕ → ℕ → ℕ → Option (List ℕ) × D
  read_data_from d start size buffer sector zero = (some buffer, d)
  read_data_from d start size buffer sector (suc left) =
      let (read, d') = flarefs_read_sector d ((start + sector) % 2 ^ 32) in
      elim read [
        | none ↦ (none, d')
        | some b ↦
            let copied = copy_at buffer (sector * 512) (take (min 512 (size - sector * 512)) b) in
            let rest = read_data_from d' start size copied (sector + 1) left in
            if leb size (sector * 512) then (some buffer, d') else rest
      ]

  -- `flarefs_format`'s first loop.
  unfoldable pub clear_from : D → ℕ → ℕ → Bool × D
  clear_from d sector zero = (true, d)
  clear_from d sector (suc left) =
      let (ok, d') = flarefs_write_sector d sector (replicate 512 0) in
      elim ok [ true ↦ clear_from d' (sector + 1) left | false ↦ (false, d') ]
