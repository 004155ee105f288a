-- ===== src/FlareFs/Placed.antt =====
-- Where the files of kernel/fs/ext4.c lie on the disk: behind the directory and before the first free
-- sector, so that a write of one file leaves the others alone.
use flare_os.Prelude.{
  refl, replicate, subst, ap, none, ℕ, zero, suc, ◌+◌, ◌%◌, ◌^◌, ◌≤◌, ◌<◌, ◌≡◌, ◌≢◌, ◌⊎◌, inl, inr,
  Bool, List, [], ◌∷◌, Option, some, arith, ltb, set, get_elem?, length, Bool-cases,
}
use flare_os.BlockDevice.{BlockDevice}
use flare_os.FlareFs.State.{Fs, Super, DirEntry, zero_entry}
use flare_os.FlareFs.Mount.{fresh_super}
use flare_os.FlareFs.Io.{flarefs_write_super, flarefs_write_directory, write_data_from}
use flare_os.FlareFs.Ops.{
  store_file, fs_write_file, final_bytes, flarefs_find_slot, sectors_for, entry_for,
}
use flare_os.FlareFs.Cases.{write_cases}
use flare_os.FlareFs.Sectors.{sectors_for-lt, fs_write_file-Keeps}

-- An entry in use has its run behind the directory and before the limit.
abbrev pub PlacedEntry : ℕ → DirEntry → Type 0
PlacedEntry limit e =
    (e.used ≡ 0) ⊎ ((5 ≤ e.start_sector) × (e.start_sector + e.sector_count ≤ limit))

abbrev pub Placed : ℕ → List DirEntry → Type 0
Placed limit [] = Unit {0}
Placed limit (e ∷ dir) = PlacedEntry limit e × Placed limit dir

-- The first free sector is behind the directory and in the region of 256 sectors, and every run is
-- before it.
abbrev pub IsPlaced : Fs → Type 0
IsPlaced fs =
    (5 ≤ fs.super.next_free_sector)
    × (fs.super.next_free_sector ≤ fs.super.total_sectors)
    × (fs.super.total_sectors ≤ 256)
    × Placed fs.super.next_free_sector fs.dir

Placed-mono : (low high : ℕ) (dir : List DirEntry) → low ≤ high → Placed low dir → Placed high dir
Placed-mono low high [] h p = tt
Placed-mono low high (e ∷ dir) h (inl free, p) = (inl free, Placed-mono low high dir h p)
Placed-mono low high (e ∷ dir) h (inr (from, to), p) =
    (inr (from, omega arith), Placed-mono low high dir h p)

Placed-set :
    (limit i : ℕ) (e : DirEntry) (dir : List DirEntry)
    → PlacedEntry limit e
    → Placed limit dir
    → Placed limit (set dir i e)
Placed-set limit i e [] q p = tt
Placed-set limit zero e (x ∷ dir) q p = (q, p.1)
Placed-set limit (suc i) e (x ∷ dir) q p = (p.0, Placed-set limit i e dir q p.1)

-- A directory without files.
pub Placed-replicate : (limit n : ℕ) → Placed limit (replicate n zero_entry)
Placed-replicate limit zero = tt
Placed-replicate limit (suc n) = (inl refl, Placed-replicate limit n)

-- The file system that `flarefs_format` writes.
pub formatted-IsPlaced :
    (fs : Fs) → IsPlaced (record fs { super = fresh_super; dir = replicate 32 zero_entry })
formatted-IsPlaced fs = (omega arith, omega arith, omega arith, Placed-replicate 5 32)

run_of_entry :
    (limit j : ℕ) (e : DirEntry) (dir : List DirEntry)
    → Placed limit dir
    → get_elem? dir j ≡ some e
    → e.used ≢ 0
    → (5 ≤ e.start_sector) × (e.start_sector + e.sector_count ≤ limit)
run_of_entry limit j e [] p at used = cc at
run_of_entry limit zero e (x ∷ dir) (inl free, p) at used = absurd (used (cc (at, free)))
run_of_entry limit zero e (x ∷ dir) (inr run, p) at used =
    subst (λ (y : DirEntry). (5 ≤ y.start_sector) × (y.start_sector + y.sector_count ≤ limit))
      (ap (λ (o : Option DirEntry). elim o [ none ↦ x | some y ↦ y ]) at) run
run_of_entry limit (suc j) e (x ∷ dir) p at used = run_of_entry limit j e dir p.1 at used

module _ {D : Type 0} (dev : BlockDevice D) where
  store_file-IsPlaced :
      (fs : Fs) (d : D) (name bytes : List ℕ) (slot : Option ℕ) (index : ℕ)
      → length bytes < 2 ^ 32
      → IsPlaced fs
      → IsPlaced (store_file dev fs d name bytes slot index).1
  unfolding store_file entry_for
  store_file-IsPlaced fs d name bytes slot index short placed =
      let start = fs.super.next_free_sector in
      let count = sectors_for bytes in
      let few = sectors_for-lt dev bytes short in
      let next : (start + count) % 2 ^ 32 ≡ start + count = omega (arith, placed, few) in
      let d1 = (write_data_from dev d start bytes 0 count).1 in
      let dir = set fs.dir index (entry_for name bytes start) in
      let super : Super = record (fs.super) { next_free_sector = (start + count) % 2 ^ 32 } in
      let d2 = (flarefs_write_directory dev d1 dir).1 in
      elim (Bool-cases (ltb fs.super.total_sectors ((start + count) % 2 ^ 32))) [
        | inl full ↦ rw full placed
        | inr room ↦
            let moved : IsPlaced (record fs { dir = dir; super = super }) = (
              omega (arith, placed, next),
              ground (arith, room),
              placed.2,
              Placed-set ((start + count) % 2 ^ 32) index (entry_for name bytes start) fs.dir
                  (inr (placed.0, omega (arith, next)))
                  (Placed-mono start ((start + count) % 2 ^ 32) fs.dir (omega (arith, next))
                    placed.3),
            ) in
            elim (Bool-cases (write_data_from dev d start bytes 0 count).0) [
              | inr lost ↦ rw (room, lost) placed
              | inl wrote ↦ elim (Bool-cases (flarefs_write_directory dev d1 dir).0) [
                | inr lost ↦ rw (room, wrote, lost) moved
                | inl wrote_dir ↦ elim (Bool-cases (flarefs_write_super dev d2 super).0) [
                  | inr lost ↦ rw (room, wrote, wrote_dir, lost) moved
                  | inl wrote_super ↦ rw (room, wrote, wrote_dir, wrote_super) moved
                ]
              ]
            ]
      ]

  -- When every file's run lies behind the directory and before the first free sector, which is inside
  -- the region, then it does so behind a write of less than 4 GiB too, whatever becomes of the write,
  -- and the data in the run of every file, the old run of the written one included, is as it was.
  pub fs_write_file-IsPlaced :
      (fs : Fs) (d : D) (name bytes : List ℕ) (append : Bool)
      → IsPlaced fs
      → length (final_bytes fs (flarefs_find_slot fs name) bytes append) < 2 ^ 32
      → IsPlaced (fs_write_file dev fs d name bytes append).1
        × ((j i : ℕ) (e : DirEntry)
            → get_elem? fs.dir j ≡ some e
            → e.used ≢ 0
            → i < e.sector_count
            → dev.sector (fs_write_file dev fs d name bytes append).2 (321 + e.start_sector + i)
              ≡ dev.sector d (321 + e.start_sector + i))
  fs_write_file-IsPlaced fs d name bytes append placed short = (
    elim (write_cases dev fs d name bytes append) [
      | inl nothing ↦ rw nothing placed
      | inr (index, _, went, _, _) ↦ rw went (store_file-IsPlaced fs d name _ _ index short placed)
    ],
    λ j i e at used lt.
        let run = run_of_entry fs.super.next_free_sector j e fs.dir placed.3 at used in
        fs_write_file-Keeps dev fs d name bytes append (321 + e.start_sector + i) placed.0
          (omega (arith, placed)) short (inr (inl (omega (arith, run), omega (arith, run, lt)))),
  )
