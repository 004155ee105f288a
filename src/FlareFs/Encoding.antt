-- ===== src/FlareFs/Encoding.antt =====
-- The packed structs of kernel/fs/ext4.c as bytes: u32 fields are little-endian.
use flare_os.Prelude.{
  ℕ, zero, suc, ◌+◌, ◌*◌, ◌/◌, ◌%◌, ◌^◌, ◌<◌, ◌≡◌, refl, List, [], ◌∷◌, ◌++◌, arith, length, take,
  drop, ap, ap₂, get_or,
}
use mathlib.Core.List.{append_assoc}
use flare_os.FlareFs.State.{Super, DirEntry}

unfoldable pub u32_bytes : ℕ → List ℕ
u32_bytes n = n % 256 ∷ n / 2 ^ 8 % 256 ∷ n / 2 ^ 16 % 256 ∷ n / 2 ^ 24 % 256 ∷ []

-- `*(const u32 *)ptr`, with `ptr` the rest of the buffer.
unfoldable pub read_u32 : List ℕ → ℕ
read_u32 p = get_or p 0 0 + get_or p 1 0 * 2 ^ 8 + get_or p 2 0 * 2 ^ 16 + get_or p 3 0 * 2 ^ 24

unfoldable pub super_bytes : Super → List ℕ
unfolding u32_bytes
super_bytes s =
    u32_bytes s.magic
    ++ (u32_bytes s.version
        ++ (u32_bytes s.start_lba
            ++ (u32_bytes s.total_sectors
                ++ (u32_bytes s.dir_entries
                    ++ (u32_bytes s.dir_sectors
                        ++ (u32_bytes s.next_free_sector ++ u32_bytes s.reserved))))))

-- `memcpy(&g_super, sector, sizeof(g_super))`
unfoldable pub super_of : List ℕ → Super
unfolding read_u32
super_of p = record {
  magic = read_u32 p;
  version = read_u32 (drop 4 p);
  start_lba = read_u32 (drop 8 p);
  total_sectors = read_u32 (drop 12 p);
  dir_entries = read_u32 (drop 16 p);
  dir_sectors = read_u32 (drop 20 p);
  next_free_sector = read_u32 (drop 24 p);
  reserved = read_u32 (drop 28 p);
}

unfoldable pub entry_bytes : DirEntry → List ℕ
unfolding u32_bytes
entry_bytes e =
    u32_bytes e.used
    ++ (u32_bytes e.start_sector ++ (u32_bytes e.sector_count ++ (u32_bytes e.size ++ e.name)))

unfoldable pub entry_of : List ℕ → DirEntry
unfolding read_u32
entry_of p = record {
  used = read_u32 p;
  start_sector = read_u32 (drop 4 p);
  sector_count = read_u32 (drop 8 p);
  size = read_u32 (drop 12 p);
  name = take 48 (drop 16 p);
}

-- `g_dir` as the byte array that `flarefs_write_directory` cuts into sectors.
unfoldable pub dir_bytes : List DirEntry → List ℕ
dir_bytes [] = []
dir_bytes (e ∷ dir) = entry_bytes e ++ dir_bytes dir

unfoldable pub dir_of : ℕ → List ℕ → List DirEntry
dir_of zero p = []
dir_of (suc n) p = entry_of p ∷ dir_of n (drop 64 p)

abbrev pub U32 : ℕ → Type 0
U32 n = n < 2 ^ 32

-- The values fit their fields.
pub record FitsSuper (s : Super) : Type 0 where
  pub magic : U32 s.magic
  pub version : U32 s.version
  pub start_lba : U32 s.start_lba
  pub total_sectors : U32 s.total_sectors
  pub dir_entries : U32 s.dir_entries
  pub dir_sectors : U32 s.dir_sectors
  pub next_free_sector : U32 s.next_free_sector
  pub reserved : U32 s.reserved

pub record FitsEntry (e : DirEntry) : Type 0 where
  pub used : U32 e.used
  pub start_sector : U32 e.start_sector
  pub sector_count : U32 e.sector_count
  pub size : U32 e.size
  pub name : length e.name ≡ 48

abbrev pub FitsDir : List DirEntry → Type 0
FitsDir [] = Unit {0}
FitsDir (e ∷ dir) = FitsEntry e × FitsDir dir

pub read_u32-u32_bytes : (n : ℕ) (r : List ℕ) → U32 n → read_u32 (u32_bytes n ++ r) ≡ n
unfolding read_u32 u32_bytes
read_u32-u32_bytes n r h = omega arith

-- A superblock read back from its bytes, whatever follows them, is the superblock.
pub super_of-super_bytes :
    (s : Super) (r : List ℕ) → FitsSuper s → super_of (super_bytes s ++ r) ≡ s
unfolding super_of super_bytes read_u32 u32_bytes
super_of-super_bytes s r f = ground arith

take-append : (xs ys : List ℕ) (n : ℕ) → length xs ≡ n → take n (xs ++ ys) ≡ xs
take-append [] ys zero h = refl
take-append [] ys (suc n) h = absurd (omega arith)
take-append (x ∷ xs) ys zero h = absurd (omega arith)
take-append (x ∷ xs) ys (suc n) h = ap (◌∷◌ x) (take-append xs ys n (omega arith))

drop-append : (xs ys : List ℕ) (n : ℕ) → length xs ≡ n → drop n (xs ++ ys) ≡ ys
drop-append [] ys zero h = refl
drop-append [] ys (suc n) h = absurd (omega arith)
drop-append (x ∷ xs) ys zero h = absurd (omega arith)
drop-append (x ∷ xs) ys (suc n) h = drop-append xs ys n (omega arith)

pub entry_of-entry_bytes :
    (e : DirEntry) (r : List ℕ) → FitsEntry e → entry_of (entry_bytes e ++ r) ≡ e
unfolding entry_of entry_bytes read_u32 u32_bytes
entry_of-entry_bytes e r f = ground (arith, take-append e.name r 48 f.name)

pub length-entry_bytes : (e : DirEntry) → FitsEntry e → length (entry_bytes e) ≡ 64
unfolding entry_bytes u32_bytes
length-entry_bytes e f = omega (arith, f.name)

-- A directory read back from its bytes, whatever follows them, is the directory.
pub dir_of-dir_bytes :
    (dir : List DirEntry) (r : List ℕ)
    → FitsDir dir
    → dir_of (length dir) (dir_bytes dir ++ r) ≡ dir
unfolding dir_of dir_bytes
dir_of-dir_bytes [] r f = refl
dir_of-dir_bytes (e ∷ dir) r f = rw append_assoc (
    ap₂ ◌∷◌ (entry_of-entry_bytes e (dir_bytes dir ++ r) f.0) (
      rw (drop-append (entry_bytes e) (dir_bytes dir ++ r) 64 (length-entry_bytes e f.0))
        (dir_of-dir_bytes dir r f.1)))
