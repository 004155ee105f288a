-- ===== src/FlareFs/Reuse.antt =====
-- A failed removal of kernel/fs/ext4.c gives the directory entry of a file that stays to the next file.
use flare_os.Prelude.{
  ℕ, zero, suc, ◌+◌, ◌<◌, ◌≡◌, refl, sym, ap, ◌∙◌, subst, Bool, true, false, List, [], ◌∷◌, ◌++◌,
  Option, none, some, inl, inr, arith, leb, ◌==◌, get_or, set, length, Bool-cases,
}
use flare_os.BlockDevice.{BlockDevice}
use flare_os.FlareFs.State.{Fs, DirEntry, zero_entry, fs_max_root_files}
use flare_os.FlareFs.Io.{flarefs_write_directory}
use flare_os.FlareFs.Ops.{
  flarefs_find_slot, free_entry_from, no_file, entry_index, put_file, final_bytes, remove_slot,
  fs_remove_file, fs_write_file,
}
use flare_os.FlareFs.Cases.{write_cases}
use flare_os.FlareFs.Lookup.{store_file-files}

-- The first `k` entries are in use.
abbrev pub InUse : ℕ → List DirEntry → Type 0
InUse zero dir = Unit {0}
InUse (suc k) [] = ⊥
InUse (suc k) (e ∷ dir) = ((e.used == 0) ≡ false) × InUse k dir

-- An entry that is cleared behind them is the one that the next file gets.
free_entry_from-set :
    (i left k : ℕ) (dir : List DirEntry)
    → InUse k dir
    → k < left
    → k < length dir
    → free_entry_from i left (set dir k zero_entry) ≡ some (i + k)
unfolding free_entry_from
free_entry_from-set i zero k dir u h l = absurd (omega arith)
free_entry_from-set i (suc left) zero [] u h l = absurd (omega arith)
free_entry_from-set i (suc left) zero (e ∷ dir) u h l = ap (λ (n : ℕ). some n) (omega arith)
free_entry_from-set i (suc left) (suc k) [] u h l = absurd (omega arith)
free_entry_from-set i (suc left) (suc k) (e ∷ dir) u h l =
    rw (u.0, free_entry_from-set (i + 1) left k dir u.1 (omega arith) (omega arith))
      (ap (λ (n : ℕ). some n) (omega arith))

module _ {D : Type 0} (dev : BlockDevice D) where
  -- A removal that cannot write the directory: the entry is cleared, and all else is as it was.
  failed_removal :
      (fs : Fs) (d : D) (name : List ℕ) (slot : ℕ)
      → fs.writable ≡ true
      → flarefs_find_slot fs name ≡ some slot
      → let index = (get_or fs.files slot no_file).dir_index in
        index < fs.super.dir_entries
        → (flarefs_write_directory dev d (set fs.dir index zero_entry)).0 ≡ false
        → ((fs_remove_file dev fs d name).0 ≡ false)
          × ((fs_remove_file dev fs d name).1 ≡ record fs { dir = set fs.dir index zero_entry })
  unfolding fs_remove_file remove_slot
  failed_removal fs d name slot w found index_in broken = (ground arith, ground arith)

  -- The entry of a new file is the first free one.
  entry_index-new :
      (fs : Fs) (index index' : ℕ)
      → free_entry_from 0 fs.super.dir_entries fs.dir ≡ some index
      → entry_index fs none ≡ some index'
      → index' ≡ index
  unfolding entry_index
  entry_index-new fs index index' first e =
      elim (Bool-cases (leb fs_max_root_files (length fs.files))) [
        | inl full ↦ absurd (cc (rw full at e))
        | inr room ↦
            let same : some index' ≡ some index = ground (arith, e, room, first) in
            ap (λ (o : Option ℕ). elim o [ none ↦ index' | some n ↦ n ]) same
      ]

  -- What a write leaves of a new name, where `index` is the first free entry.
  new_file :
      (fs : Fs) (d : D) (name bytes : List ℕ) (index : ℕ)
      → flarefs_find_slot fs name ≡ none
      → free_entry_from 0 fs.super.dir_entries fs.dir ≡ some index
      → (fs_write_file dev fs d name bytes false).0 ≡ true
      → (fs_write_file dev fs d name bytes false).1.files
        ≡ fs.files ++ record { name = name; bytes = bytes; dir_index = index } ∷ []
  unfolding final_bytes put_file
  new_file fs d name bytes index fresh first stored = elim (write_cases dev fs d name bytes false) [
    | inl nothing ↦ cc (ap (λ (r : Bool × Fs × D). r.0) nothing)
    | inr (index', e, went, _, _) ↦
        let same = entry_index-new fs index index' first (rw fresh at e) in
        let went' = rw fresh at went in
        rw (went', store_file-files dev fs d name bytes none index' (rw went' at stored), same) refl
  ]

  -- When the directory cannot be written, a removal fails and keeps the file, but clears its directory
  -- entry. If the entries before it are in use, and the disk then takes the write of a file with a new
  -- name, then that file is held behind the others with the directory entry of the file that stayed.
  pub fs_remove_file_shares_entry :
      (fs : Fs) (d d' : D) (name new bytes : List ℕ) (slot : ℕ)
      → fs.writable ≡ true
      → flarefs_find_slot fs name ≡ some slot
      → flarefs_find_slot fs new ≡ none
      → let index = (get_or fs.files slot no_file).dir_index in
        let removed = fs_remove_file dev fs d name in
        let after = fs_write_file dev removed.1 d' new bytes false in
        index < fs.super.dir_entries
        → index < length fs.dir
        → InUse index fs.dir
        → (flarefs_write_directory dev d (set fs.dir index zero_entry)).0 ≡ false
        → after.0 ≡ true
        → (removed.0 ≡ false)
          × (after.1.files
              ≡ fs.files ++ record { name = new; bytes = bytes; dir_index = index } ∷ [])
  unfolding flarefs_find_slot
  fs_remove_file_shares_entry fs d d' name new bytes slot w found fresh index_in entry_in used
        broken stored =
      let index = (get_or fs.files slot no_file).dir_index in
      let fs1 : Fs = record fs { dir = set fs.dir index zero_entry } in
      let (failed, cleared) = failed_removal fs d name slot w found index_in broken in
      (
        failed,
        subst
            (λ (g : Fs).
              (fs_write_file dev g d' new bytes false).1.files
              ≡ fs.files ++ record { name = new; bytes = bytes; dir_index = index } ∷ [])
            (sym cleared)
            (new_file fs1 d' new bytes index fresh
              (free_entry_from-set 0 fs.super.dir_entries index fs.dir used index_in entry_in
                ∙ ap (λ (n : ℕ). some n) (omega arith))
              (subst (λ (g : Fs). (fs_write_file dev g d' new bytes false).0 ≡ true) cleared
                stored)),
      )
