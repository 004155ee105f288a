-- ===== src/FlareFs/Failure.antt =====
-- What a failed call of kernel/fs/ext4.c leaves behind.
use flare_os.Prelude.{ℕ, ◌≡◌, refl, inl, inr, Bool, false, List, Option, arith}
use flare_os.BlockDevice.{BlockDevice}
use flare_os.FlareFs.State.{Fs}
use flare_os.FlareFs.Ops.{store_file, fs_write_file}
use flare_os.FlareFs.Cases.{write_cases}

module _ {D : Type 0} (dev : BlockDevice D) where
  store_fails :
      (fs : Fs) (d : D) (name bytes : List ℕ) (slot : Option ℕ) (index : ℕ)
      → (store_file dev fs d name bytes slot index).0 ≡ false
      → (store_file dev fs d name bytes slot index).1.files ≡ fs.files
  unfolding store_file
  store_fails fs d name bytes slot index h = ground arith

  -- A write that fails, for whatever reason, leaves every file in memory as it was.
  pub fs_write_file_fails :
      (fs : Fs) (d : D) (name bytes : List ℕ) (append : Bool)
      → (fs_write_file dev fs d name bytes append).0 ≡ false
      → (fs_write_file dev fs d name bytes append).1.files ≡ fs.files
  fs_write_file_fails fs d name bytes append h = elim (write_cases dev fs d name bytes append) [
    | inl nothing ↦ rw nothing refl
    | inr (index, _, went, _, _) ↦ rw went (store_fails fs d name _ _ index (rw went at h))
  ]
