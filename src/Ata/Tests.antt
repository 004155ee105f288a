-- ===== src/Ata/Tests.antt =====
-- Ports whose drive is always ready, and the theorems at a sector.
use flare_os.Prelude.{ℕ, ◌≡◌, refl, arith, true, some, replicate}
use flare_os.Ata.{
  Ports, select_writes, wait_from, ata_wait_not_busy, poll_from, ata_poll_drq, outs,
  ata_select_lba28, read_words, ata_read_sector,
}
use flare_os.Ata.Registers.{last_write, address, select_writes-address}

-- Its state is a number that nothing changes.
abbrev ready : Ports ℕ
ready = record { inb = λ d _. (0x48, d); inw = λ d _. (7, d); outb = λ d _ _. d; outw = λ d _ _. d }

read_test : ata_read_sector ready true 0 5 ≡ (some (replicate 256 7), 0)
unfolding ata_read_sector ata_select_lba28 ata_wait_not_busy wait_from ata_poll_drq poll_from outs
    select_writes read_words
read_test = refl

select_writes-address_example :
    (address (λ port. last_write (select_writes 0x1234567) port 0) ≡ 0x1234567)
    × (last_write (select_writes 0x1234567) 0x1f2 0 ≡ 1)
select_writes-address_example = select_writes-address 0x1234567 (λ _. 0) (omega arith)
