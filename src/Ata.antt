-- ===== src/Ata.antt =====
-- kernel/drivers/ata.c: the disk driver, over the ports of the machine. Its messages are left out.
pub mod Registers
mod Tests
use flare_os.Prelude.{
  ℕ, zero, suc, ◌+◌, ◌-◌, ◌*◌, ◌/◌, ◌%◌, ◌^◌, bit_and, bit_or, Bool, true, false, not, ◌&&◌, ◌||◌,
  List, [], ◌∷◌, Option, none, some, ltb, leb, ◌==◌, if◌then◌else◌, get_or,
}

-- The processor's port instructions on the machine's state.
pub record Ports (D : Type 0) : Type 0 where
  pub inb : D → ℕ → ℕ × D
  pub inw : D → ℕ → ℕ × D
  pub outb : D → ℕ → ℕ → D
  pub outw : D → ℕ → ℕ → D

abbrev pub ata_io_base : ℕ
ata_io_base = 0x1f0

abbrev pub ata_ctrl_base : ℕ
ata_ctrl_base = 0x3f6

-- `ATA_STATUS_ERR | ATA_STATUS_DF`.
abbrev pub failed : ℕ → Bool
failed status = not (bit_and status 0x21 == 0)

-- Not `ATA_STATUS_BSY`.
abbrev pub idle : ℕ → Bool
idle status = bit_and status 0x80 == 0

-- `ATA_STATUS_DRQ`.
abbrev pub wants_data : ℕ → Bool
wants_data status = not (bit_and status 0x08 == 0)

-- What is written to the registers to select a sector, with the wait of `io_wait`.
unfoldable pub select_writes : ℕ → List (ℕ × ℕ)
select_writes lba =
    (ata_ctrl_base, 0)
    ∷ (ata_io_base + 6, bit_or 0xe0 (lba / 16777216 % 16))
    ∷ (0x80, 0)
    ∷ (ata_io_base + 2, 1)
    ∷ (ata_io_base + 3, lba % 256)
    ∷ (ata_io_base + 4, lba / 256 % 256)
    ∷ (ata_io_base + 5, lba / 65536 % 256)
    ∷ []

unfoldable pub identify_writes : List (ℕ × ℕ)
identify_writes =
    (ata_ctrl_base, 0)
    ∷ (ata_io_base + 6, 0xa0)
    ∷ (0x80, 0)
    ∷ (ata_io_base + 2, 0)
    ∷ (ata_io_base + 3, 0)
    ∷ (ata_io_base + 4, 0)
    ∷ (ata_io_base + 5, 0)
    ∷ (ata_io_base + 7, 0xec)
    ∷ []

module _ {D : Type 0} (ports : Ports D) where
  abbrev ata_status : D → ℕ × D
  ata_status d = ports.inb d (ata_io_base + 7)

  unfoldable pub wait_from : ℕ → D → Bool × D
  wait_from zero d = (false, d)
  wait_from (suc left) d =
      let (status, d1) = ata_status d in
      elim (idle status) [ true ↦ (true, d1) | false ↦ wait_from left d1 ]

  unfoldable pub ata_wait_not_busy : D → Bool × D
  ata_wait_not_busy d = wait_from 1000000 d

  unfoldable pub poll_from : ℕ → D → Bool × D
  poll_from zero d = (false, d)
  poll_from (suc left) d =
      let (status, d1) = ata_status d in
      elim (failed status) [
        | true ↦ (false, d1)
        | false ↦ elim (idle status && wants_data status) [
          | true ↦ (true, d1)
          | false ↦ poll_from left d1
        ]
      ]

  unfoldable pub ata_poll_drq : D → Bool × D
  ata_poll_drq d = poll_from 1000000 d

  unfoldable pub outs : D → List (ℕ × ℕ) → D
  outs d [] = d
  outs d (w ∷ writes) = outs (ports.outb d w.0 w.1) writes

  unfoldable pub ata_select_lba28 : D → ℕ → Bool × D
  ata_select_lba28 d lba =
      let (ready, d1) = ata_wait_not_busy d in
      if leb (2 ^ 28) lba
      then (false, d)
      else if not ready
      then (false, d1)
      else (true, outs d1 (select_writes lba))

  -- The loops over the 256 words of a sector.
  unfoldable pub read_words : ℕ → D → List ℕ × D
  read_words zero d = ([], d)
  read_words (suc left) d =
      let (word, d1) = ports.inw d ata_io_base in
      let (words, d2) = read_words left d1 in (word ∷ words, d2)

  unfoldable pub write_words : D → List ℕ → D
  write_words d [] = d
  write_words d (word ∷ words) = write_words (ports.outw d ata_io_base word) words

  -- `g_ata_present` after the identification.
  unfoldable pub ata_init : D → Bool × D
  ata_init d =
      let d1 = outs d identify_writes in
      let (status, d2) = ata_status d1 in
      let (ok, d3) = ata_poll_drq d2 in
      let (identify, d4) = read_words 256 d3 in
      if status == 0
      then (false, d2)
      else if not ok
      then (false, d3)
      else (not (bit_and (get_or identify 49 0) 512 == 0), d4)

  unfoldable pub ata_flush : Bool → D → Bool × D
  ata_flush present d =
      let (ready, d1) = ata_wait_not_busy (ports.outb d (ata_io_base + 7) 0xe7) in
      let (status, d2) = ata_status d1 in
      if not present
      then (false, d)
      else if not ready
      then (false, d1)
      else (not (failed status), d2)

  -- The buffer is never null. A sector is its 256 words.
  unfoldable pub ata_read_sector : Bool → D → ℕ → Option (List ℕ) × D
  ata_read_sector present d lba =
      let (selected, d1) = ata_select_lba28 d lba in
      let (ok, d2) = ata_poll_drq (ports.outb d1 (ata_io_base + 7) 0x20) in
      let (words, d3) = read_words 256 d2 in
      if not present
      then (none, d)
      else if not selected
      then (none, d1)
      else if not ok
      then (none, d2)
      else (some words, d3)

  unfoldable pub ata_write_sector : Bool → D → ℕ → List ℕ → Bool × D
  ata_write_sector present d lba words =
      let (selected, d1) = ata_select_lba28 d lba in
      let (ok, d2) = ata_poll_drq (ports.outb d1 (ata_io_base + 7) 0x30) in
      if not present
      then (false, d)
      else if not selected
      then (false, d1)
      else if not ok
      then (false, d2)
      else ata_flush present (write_words d2 words)
