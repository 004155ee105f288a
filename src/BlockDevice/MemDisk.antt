-- ===== src/BlockDevice/MemDisk.antt =====
-- A disk in memory with defective sectors, which meets the contract of `BlockDevice`.
use flare_os.Prelude.{
  ℕ, ◌≡◌, ◌≢◌, Bool, true, false, List, Option, none, some, arith, ◌==◌, if◌then◌else◌, replicate,
}
use flare_os.BlockDevice.{BlockDevice}

pub record MemDisk : Type 0 where
  pub online : Bool
  pub defect : ℕ → Bool
  pub sectors : ℕ → List ℕ

unfoldable pub read_sector : MemDisk → ℕ → Option (List ℕ) × MemDisk
read_sector d n = if d.defect n then (none, d) else (some (d.sectors n), d)

unfoldable pub write_sector : MemDisk → ℕ → List ℕ → Bool × MemDisk
write_sector d n b =
    if d.defect n
    then (false, d)
    else (true, record d { sectors = λ m. if m == n then b else d.sectors m })

pub read_sector_lem :
    (d : MemDisk) (n : ℕ) {b : List ℕ} → (read_sector d n).0 ≡ some b → b ≡ d.sectors n
unfolding read_sector
read_sector_lem d n h = ground arith

pub read_sector_keeps : (d : MemDisk) (n m : ℕ) → (read_sector d n).1.sectors m ≡ d.sectors m
unfolding read_sector
read_sector_keeps d n m = ground arith

pub write_sector_lem :
    (d : MemDisk) (n : ℕ) (b : List ℕ)
    → (write_sector d n b).0 ≡ true
    → (write_sector d n b).1.sectors n ≡ b
unfolding write_sector
write_sector_lem d n b h = ground arith

pub write_sector_keeps :
    (d : MemDisk) (n m : ℕ) (b : List ℕ) → m ≢ n → (write_sector d n b).1.sectors m ≡ d.sectors m
unfolding write_sector
write_sector_keeps d n m b ne = ground arith

abbrev pub mem_disk : BlockDevice MemDisk
mem_disk = record {
  present = λ d. d.online;
  read_sector = read_sector;
  write_sector = write_sector;
  sector = λ d. d.sectors;
  read-sector = read_sector_lem;
  read_keeps = read_sector_keeps;
  write-sector = write_sector_lem;
  write_keeps = write_sector_keeps;
}

-- A disk that works, all zeros.
abbrev pub blank : MemDisk
blank = record { online = true; defect = λ _. false; sectors = λ _. replicate 512 0 }
