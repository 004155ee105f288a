-- ===== src/Ata/Registers.antt =====
-- The drive's registers after kernel/drivers/ata.c has selected a sector.
use flare_os.Prelude.{
  ℕ, zero, suc, ◌+◌, ◌*◌, ◌/◌, ◌%◌, ◌^◌, ◌<◌, ◌≡◌, refl, bit_or, Bool, true, ◌&&◌, List, [], ◌∷◌,
  arith, ◌==◌, if◌then◌else◌,
}
use native.Mathlib.Decide.{ℕ_discrete}
use flare_os.Ata.{select_writes}

-- The last value that was written to a port, or `old`.
unfoldable pub last_write : List (ℕ × ℕ) → ℕ → ℕ → ℕ
last_write [] port old = old
last_write (w ∷ writes) port old = last_write writes port (if w.0 == port then w.1 else old)

-- The sector number that a drive reads from its four address registers.
abbrev pub address : (ℕ → ℕ) → ℕ
address reg = reg 0x1f3 + reg 0x1f4 * 256 + reg 0x1f5 * 65536 + reg 0x1f6 % 16 * 16777216

-- The drive register's upper bits do not reach the address.
bits_agree : ℕ → Bool
bits_agree zero = true
bits_agree (suc n) = (bit_or 0xe0 n % 16 == n) && bits_agree n

bits_agree-at : (k n : ℕ) → n < k → bits_agree k ≡ true → bit_or 0xe0 n % 16 ≡ n
unfolding bits_agree
bits_agree-at zero n h all = absurd (omega arith)
bits_agree-at (suc k) n h all = elim (ℕ_discrete n k) [
  | yes e ↦ rw e (ground arith)
  | no ne ↦ bits_agree-at k n (omega arith) (ground arith)
]

drive_bits : (n : ℕ) → n < 16 → bit_or 0xe0 n % 16 ≡ n
unfolding bits_agree
drive_bits n h = bits_agree-at 16 n h refl

-- After a sector below 2^28 is selected, the drive's four address registers hold its number, whatever
-- they held before, and the sector count is 1.
pub select_writes-address :
    (lba : ℕ) (old : ℕ → ℕ)
    → lba < 2 ^ 28
    → (address (λ port. last_write (select_writes lba) port (old port)) ≡ lba)
      × (last_write (select_writes lba) 0x1f2 (old 0x1f2) ≡ 1)
unfolding last_write select_writes
select_writes-address lba old small =
    (omega (arith, drive_bits (lba / 16777216 % 16) (omega arith)), refl)
