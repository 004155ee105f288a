-- ===== src/FlareFs/Sectors.antt =====
-- Which sectors of the disk a write of kernel/fs/ext4.c touches, and what it puts there.
use flare_os.Prelude.{
  ℕ, zero, suc, ◌+◌, ◌*◌, ◌%◌, ◌^◌, ◌≤◌, ◌<◌, ◌≡◌, refl, ap, ◌∙◌, ◌⊎◌, inl, inr, ◌≢◌, Bool, true,
  List, Option, arith, take, drop, set, length, Bool-cases,
}
use native.Mathlib.Decide.{ℕ_discrete}
use flare_os.BlockDevice.{BlockDevice}
use flare_os.FlareFs.State.{Fs, Super, DirEntry}
use flare_os.FlareFs.Encoding.{dir_bytes}
use flare_os.FlareFs.Io.{
  lba, sector_of, flarefs_write_sector, flarefs_write_super, flarefs_write_directory,
  write_directory_from, write_data_from,
}
use flare_os.FlareFs.Ops.{
  store_file, fs_write_file, final_bytes, flarefs_find_slot, sectors_for, entry_for,
}
use flare_os.FlareFs.Cases.{write_cases}

-- Sector `i` of a file's data.
abbrev pub chunk : List ℕ → ℕ → List ℕ
chunk bytes i = sector_of (take 512 (drop (i * 512) bytes))

module _ {D : Type 0} (dev : BlockDevice D) where
  abbrev Keeps : D → D → ℕ → Type 0
  Keeps d d' m = dev.sector d' m ≡ dev.sector d m

  write_sector-Keeps :
      (d : D) (sector m : ℕ) (b : List ℕ)
      → m ≢ lba sector
      → Keeps d (flarefs_write_sector dev d sector b).1 m
  unfolding flarefs_write_sector
  write_sector-Keeps d sector m b h = dev.write_keeps d (lba sector) m b h

  write_sector-sector :
      (d : D) (sector : ℕ) (b : List ℕ)
      → (flarefs_write_sector dev d sector b).0 ≡ true
      → dev.sector (flarefs_write_sector dev d sector b).1 (lba sector) ≡ b
  unfolding flarefs_write_sector
  write_sector-sector d sector b h = dev.write-sector d (lba sector) b h

  -- The data loop writes no sector outside its run.
  write_data_from-Keeps :
      (d : D) (start : ℕ) (bytes : List ℕ) (sector left m : ℕ)
      → start + sector + left < 2 ^ 31
      → (m < 321 + start + sector) ⊎ (321 + start + sector + left ≤ m)
      → Keeps d (write_data_from dev d start bytes sector left).1 m
  unfolding write_data_from
  write_data_from-Keeps d start bytes sector zero m small out = refl
  write_data_from-Keeps d start bytes sector (suc left) m small out =
      let n = (start + sector) % 2 ^ 32 in
      let d' = (flarefs_write_sector dev d n (chunk bytes sector)).1 in
      ground (
        arith,
        write_sector-Keeps d n m (chunk bytes sector),
        write_data_from-Keeps d' start bytes (sector + 1) left m,
      )

  -- When the data loop succeeds, each sector of its run holds its part of the bytes.
  write_data_from-chunk :
      (d : D) (start : ℕ) (bytes : List ℕ) (sector left i : ℕ)
      → start + sector + left < 2 ^ 31
      → (write_data_from dev d start bytes sector left).0 ≡ true
      → sector ≤ i
      → i < sector + left
      → dev.sector (write_data_from dev d start bytes sector left).1 (321 + start + i)
        ≡ chunk bytes i
  unfolding write_data_from
  write_data_from-chunk d start bytes sector zero i small ok lo hi = absurd (omega arith)
  write_data_from-chunk d start bytes sector (suc left) i small ok lo hi =
      let n = (start + sector) % 2 ^ 32 in
      let d' = (flarefs_write_sector dev d n (chunk bytes sector)).1 in
      let at : (321 + n) % 2 ^ 32 ≡ 321 + start + sector = omega arith in
      elim (Bool-cases (flarefs_write_sector dev d n (chunk bytes sector)).0) [
        | inr failed ↦ ground arith
        | inl wrote ↦
            let here : dev.sector d' (321 + start + sector) ≡ chunk bytes sector =
              rw at at (write_sector-sector d n (chunk bytes sector) wrote) in
            elim (ℕ_discrete i sector) [
              | yes e ↦ rw e (
                  rw (wrote, write_data_from)
                    (write_data_from-Keeps d' start bytes (sector + 1) left (321 + start + sector)
                        (omega arith) (inl (omega arith))
                      ∙ here))
              | no ne ↦
                  rw (wrote, write_data_from)
                    (write_data_from-chunk d' start bytes (sector + 1) left i (omega arith)
                      (rw (wrote, write_data_from) at ok) (omega arith) (omega arith))
            ]
      ]

  write_directory_from-Keeps :
      (d : D) (src : List ℕ) (sector left m : ℕ)
      → sector + left ≤ 4
      → (m < 322) ⊎ (326 ≤ m)
      → Keeps d (write_directory_from dev d src sector left).1 m
  unfolding write_directory_from
  write_directory_from-Keeps d src sector zero m small out = refl
  write_directory_from-Keeps d src sector (suc left) m small out =
      let b = take 512 (drop (sector * 512) src) in
      let d' = (flarefs_write_sector dev d (1 + sector) b).1 in
      ground (
        arith,
        write_sector-Keeps d (1 + sector) m b,
        write_directory_from-Keeps d' src (sector + 1) left m,
      )

  write_directory-Keeps :
      (d : D) (dir : List DirEntry) (m : ℕ)
      → (m < 322) ⊎ (326 ≤ m)
      → Keeps d (flarefs_write_directory dev d dir).1 m
  unfolding flarefs_write_directory
  write_directory-Keeps d dir m out =
      write_directory_from-Keeps d (dir_bytes dir) 0 4 m (omega arith) out

  write_super-Keeps :
      (d : D) (super : Super) (m : ℕ) → m ≢ 321 → Keeps d (flarefs_write_super dev d super).1 m
  unfolding flarefs_write_super
  write_super-Keeps d super m ne = write_sector-Keeps d 0 m _ (omega arith)

  -- The sectors that a write of `bytes` leaves alone: all but the superblock, the directory and the
  -- free run that it takes.
  abbrev pub Untouched : Fs → List ℕ → ℕ → Type 0
  Untouched fs bytes m =
      (m < 321)
      ⊎ ((326 ≤ m) × (m < 321 + fs.super.next_free_sector))
      ⊎ (321 + fs.super.next_free_sector + sectors_for bytes ≤ m)

  sectors_for-enough :
      (bytes : List ℕ) → length bytes < 2 ^ 32 → length bytes ≤ sectors_for bytes * 512
  unfolding sectors_for
  sectors_for-enough bytes h = ground arith

  pub sectors_for-lt : (bytes : List ℕ) → length bytes < 2 ^ 32 → sectors_for bytes < 2 ^ 24
  unfolding sectors_for
  sectors_for-lt bytes h = ground arith

  store_file-Keeps :
      (fs : Fs) (d : D) (name bytes : List ℕ) (slot : Option ℕ) (index m : ℕ)
      → 5 ≤ fs.super.next_free_sector
      → fs.super.next_free_sector < 2 ^ 30
      → length bytes < 2 ^ 32
      → Untouched fs bytes m
      → Keeps d (store_file dev fs d name bytes slot index).2 m
  unfolding store_file
  store_file-Keeps fs d name bytes slot index m five small short out =
      let start = fs.super.next_free_sector in
      let count = sectors_for bytes in
      let few = sectors_for-lt bytes short in
      let d1 = (write_data_from dev d start bytes 0 count).1 in
      let d2 = (flarefs_write_directory dev d1 (set fs.dir index (entry_for name bytes start))).1 in
      let new : Super = record (fs.super) { next_free_sector = (start + count) % 2 ^ 32 } in
      let kept1 : Keeps d d1 m =
        write_data_from-Keeps d start bytes 0 count m (omega arith) (ground arith) in
      let kept2 : Keeps d1 d2 m = write_directory-Keeps d1 _ m (ground arith) in
      let kept3 : Keeps d2 (flarefs_write_super dev d2 new).1 m =
        write_super-Keeps d2 new m (ground arith) in
      ground (arith, kept1, kept2, kept3)

  -- Where the first free sector is the fifth or a later one and below 2 to the 30, and the contents are
  -- shorter than 4 GiB: whatever becomes of a write, it changes no sector of the disk but the
  -- superblock, the four directory sectors and the run that it takes at the first free sector.
  pub fs_write_file-Keeps :
      (fs : Fs) (d : D) (name bytes : List ℕ) (append : Bool) (m : ℕ)
      → let final = final_bytes fs (flarefs_find_slot fs name) bytes append in
        5 ≤ fs.super.next_free_sector
        → fs.super.next_free_sector < 2 ^ 30
        → length final < 2 ^ 32
        → Untouched fs final m
        → dev.sector (fs_write_file dev fs d name bytes append).2 m ≡ dev.sector d m
  fs_write_file-Keeps fs d name bytes append m five small short out =
      elim (write_cases dev fs d name bytes append) [
        | inl nothing ↦ rw nothing refl
        | inr (index, _, went, _, _) ↦
            rw went (store_file-Keeps fs d name _ _ index m five small short out)
      ]

  store_file-chunk :
      (fs : Fs) (d : D) (name bytes : List ℕ) (slot : Option ℕ) (index i : ℕ)
      → 5 ≤ fs.super.next_free_sector
      → fs.super.next_free_sector < 2 ^ 30
      → length bytes < 2 ^ 32
      → (store_file dev fs d name bytes slot index).0 ≡ true
      → i < sectors_for bytes
      → dev.sector
          (store_file dev fs d name bytes slot index).2
          (321 + fs.super.next_free_sector + i)
        ≡ chunk bytes i
  unfolding store_file
  store_file-chunk fs d name bytes slot index i five small short ok lt =
      let start = fs.super.next_free_sector in
      let count = sectors_for bytes in
      let few = sectors_for-lt bytes short in
      let m = 321 + start + i in
      let d1 = (write_data_from dev d start bytes 0 count).1 in
      let d2 = (flarefs_write_directory dev d1 (set fs.dir index (entry_for name bytes start))).1 in
      let new : Super = record (fs.super) { next_free_sector = (start + count) % 2 ^ 32 } in
      let kept2 : Keeps d1 d2 m = write_directory-Keeps d1 _ m (inr (omega arith)) in
      let kept3 : Keeps d2 (flarefs_write_super dev d2 new).1 m =
        write_super-Keeps d2 new m (omega arith) in
      ground (arith, write_data_from-chunk d start bytes 0 count i (omega arith), kept2, kept3)

  store_file-super :
      (fs : Fs) (d : D) (name bytes : List ℕ) (slot : Option ℕ) (index : ℕ)
      → fs.super.next_free_sector < 2 ^ 30
      → length bytes < 2 ^ 32
      → let after = store_file dev fs d name bytes slot index in
        after.0 ≡ true
        → (after.1.super.next_free_sector ≡ fs.super.next_free_sector + sectors_for bytes)
          × (fs.super.next_free_sector + sectors_for bytes ≤ fs.super.total_sectors)
  unfolding store_file
  store_file-super fs d name bytes slot index small short ok =
      let few = sectors_for-lt bytes short in (ground arith, ground arith)

  -- Where the first free sector is the fifth or a later one and below 2 to the 30, and the contents are
  -- shorter than 4 GiB: a write that succeeds takes its run from the free sectors inside the region,
  -- moves the first free sector behind it, and leaves in each sector of the run its 512 bytes of the
  -- file's contents, the last one filled up with zeros; the run is long enough for the whole contents.
  pub fs_write_file-stores :
      (fs : Fs) (d : D) (name bytes : List ℕ) (append : Bool)
      → let final = final_bytes fs (flarefs_find_slot fs name) bytes append in
        let start = fs.super.next_free_sector in
        let after = fs_write_file dev fs d name bytes append in
        5 ≤ start
        → start < 2 ^ 30
        → length final < 2 ^ 32
        → after.0 ≡ true
        → (after.1.super.next_free_sector ≡ start + sectors_for final)
          × (length final ≤ sectors_for final * 512)
          × (start + sectors_for final ≤ fs.super.total_sectors)
          × ((i : ℕ) → i < sectors_for final → dev.sector after.2 (321 + start + i) ≡ chunk final i)
  fs_write_file-stores fs d name bytes append five small short ok =
      elim (write_cases dev fs d name bytes append) [
        | inl nothing ↦ cc (ap (λ (r : Bool × Fs × D). r.0) nothing)
        | inr (index, _, went, _, _) ↦
            let stored = rw went at ok in
            let (next, fits) = store_file-super fs d name _ _ index small short stored in
            rw went (
              next,
              sectors_for-enough _ short,
              fits,
              λ i lt. store_file-chunk fs d name _ _ index i five small short stored lt,
            )
      ]
