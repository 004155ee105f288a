-- ===== src/FlareFs/Cases.antt =====
-- The ways that a write or a removal of kernel/fs/ext4.c can go, for the proofs about them.
use flare_os.Prelude.{
  ℕ, ◌≡◌, ◌⊎◌, inl, inr, Bool, true, false, not, ◌||◌, List, some, arith, Bool-cases, Option-cases,
}
use flare_os.BlockDevice.{BlockDevice}
use flare_os.FlareFs.State.{Fs}
use flare_os.FlareFs.Ops.{
  flarefs_find_slot, final_bytes, entry_index, store_file, flarefs_write_internal, fs_write_file,
  remove_slot, fs_remove_file, flarefs_valid_name,
}

module _ {D : Type 0} (dev : BlockDevice D) where
  -- Either nothing happens, or the file goes to `store_file` with its slot, contents and entry.
  pub write_cases :
      (fs : Fs) (d : D) (name bytes : List ℕ) (append : Bool)
      → (fs_write_file dev fs d name bytes append ≡ (false, fs, d))
        ⊎ ((index : ℕ) × (entry_index fs (flarefs_find_slot fs name) ≡ some index)
            × (fs_write_file dev fs d name bytes append
                ≡ store_file dev fs d name
                    (final_bytes fs (flarefs_find_slot fs name) bytes append)
                    (flarefs_find_slot fs name)
                    index)
            × (fs.writable ≡ true)
            × (flarefs_valid_name name ≡ true))
  unfolding fs_write_file flarefs_write_internal
  write_cases fs d name bytes append =
      elim (Bool-cases (not fs.writable || not (flarefs_valid_name name))) [
        | inl rejected ↦ inl (ground arith)
        | inr ok ↦ elim (Option-cases (entry_index fs (flarefs_find_slot fs name))) [
          | inl full ↦ inl (ground arith)
          | inr (index, e) ↦ inr (index, e, ground arith, ground arith, ground arith)
        ]
      ]

  -- Either nothing happens, or the file of that name is removed by `remove_slot`.
  pub remove_cases :
      (fs : Fs) (d : D) (name : List ℕ)
      → (fs_remove_file dev fs d name ≡ (false, fs, d))
        ⊎ ((slot : ℕ) × (flarefs_find_slot fs name ≡ some slot)
            × (fs_remove_file dev fs d name ≡ remove_slot dev fs d slot)
            × (fs.writable ≡ true))
  unfolding fs_remove_file
  remove_cases fs d name = elim (Option-cases (flarefs_find_slot fs name)) [
    | inl missing ↦ inl (ground arith)
    | inr (slot, e) ↦ elim (Bool-cases fs.writable) [
      | inl rw_root ↦ inr (slot, e, ground arith, rw_root)
      | inr ro_root ↦ inl (ground arith)
    ]
  ]
