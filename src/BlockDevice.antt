-- ===== src/BlockDevice.antt =====
-- What kernel/fs/ext4.c asks of the disk: the calls ata_present, ata_read_sector and
-- ata_write_sector of kernel/drivers/ata.c, with the contract that it relies on.
pub mod MemDisk
use flare_os.Prelude.{ℕ, ◌≡◌, ◌≢◌, Bool, true, false, List, Option, none, some}

-- `sector d n` is the specification's view: what sector `n` of the disk holds. A read that fails
-- returns no data. A write that fails may leave its own sector in any state, and no other.
pub record BlockDevice (D : Type 0) : Type 0 where
  pub present : D → Bool
  pub read_sector : D → ℕ → Option (List ℕ) × D
  pub write_sector : D → ℕ → List ℕ → Bool × D
  pub sector : D → ℕ → List ℕ
  pub read-sector : (d : D) (n : ℕ) {b : List ℕ} → (read_sector d n).0 ≡ some b → b ≡ sector d n
  pub read_keeps : (d : D) (n m : ℕ) → sector (read_sector d n).1 m ≡ sector d m
  pub write-sector :
      (d : D) (n : ℕ) (b : List ℕ)
      → (write_sector d n b).0 ≡ true
      → sector (write_sector d n b).1 n ≡ b
  pub write_keeps :
      (d : D) (n m : ℕ) (b : List ℕ) → m ≢ n → sector (write_sector d n b).1 m ≡ sector d m
