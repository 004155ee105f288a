-- ===== src/Rtl8139.antt =====
-- kernel/drivers/rtl8139.c: the network card, over the ports of the machine and the card's place on the
-- PCI bus. Its messages are left out.
pub mod Receiving
pub mod Sending
mod Tests
use flare_os.Prelude.{
  ℕ, zero, suc, ◌+◌, ◌-◌, ◌*◌, ◌/◌, ◌%◌, ◌^◌, bit_and, bit_or, Bool, true, false, not, ◌&&◌, ◌||◌,
  List, [], ◌∷◌, ◌++◌, Option, none, some, ltb, leb, ◌==◌, if◌then◌else◌, length, take, replicate,
}
use flare_os.Memory.{Heap, kmalloc}

-- The port instructions that the driver uses, and the configuration space of the PCI bus
-- (kernel/drivers/pci.c), on the machine's state.
pub record Bus (D : Type 0) : Type 0 where
  pub inb : D → ℕ → ℕ × D
  pub inl : D → ℕ → ℕ × D
  pub outb : D → ℕ → ℕ → D
  pub outw : D → ℕ → ℕ → D
  pub outl : D → ℕ → ℕ → D
  pub pci_find_device : D → (vendor device : ℕ) → ℕ × D
  pub pci_read_bar0 : D → ℕ → ℕ × D
  pub pci_read_command : D → ℕ → ℕ × D
  pub pci_write_command : D → ℕ → ℕ → D

-- The driver's variables; `rx_buffer` is an address.
pub record Nic : Type 0 where
  pub io_base : ℕ
  pub rx_buffer : ℕ
  pub rx_offset : ℕ
  pub mac : List ℕ
  pub nic_found : Bool
  pub tx_desc : ℕ

abbrev pub rx_buf_size : ℕ
rx_buf_size = 8192 + 16 + 1536

abbrev pub rx_buf_pad : ℕ
rx_buf_pad = 16

-- The header of a packet in the receive buffer, whose bytes the card writes.
abbrev u16_in : (ℕ → ℕ) → ℕ → ℕ
u16_in buffer at = buffer at + 256 * buffer (at + 1)

abbrev pub rx_status : Nic → (ℕ → ℕ) → ℕ
rx_status n buffer = u16_in buffer n.rx_offset

abbrev pub rx_length : Nic → (ℕ → ℕ) → ℕ
rx_length n buffer = u16_in buffer (n.rx_offset + 2)

abbrev pub next_offset : Nic → (ℕ → ℕ) → ℕ
next_offset n buffer = (n.rx_offset + rx_length n buffer + 4 + 3) / 4 * 4 % 2 ^ 16

abbrev pub is_corrupt : Nic → (ℕ → ℕ) → Bool
is_corrupt n buffer =
    ltb (rx_length n buffer) 60
    || (ltb 1518 (rx_length n buffer) || leb rx_buf_size (next_offset n buffer))

abbrev pub wrapped : ℕ → ℕ
wrapped offset = if leb (rx_buf_size - rx_buf_pad) offset then 0 else offset

-- Where a packet lies in the receive buffer.
pub record Packet : Type 0 where
  pub start : ℕ
  pub size : ℕ

-- The frame with the zeros that fill it up to 60 bytes.
abbrev pub padded : List ℕ → List ℕ
padded bytes = bytes ++ replicate (60 - length bytes) 0

-- What a send leaves: the result, and the frame with the address that it was written to.
pub record SendState (D : Type 0) : Type 0 where
  pub ok : Bool
  pub frame : Option (ℕ × List ℕ)
  pub nic : Nic
  pub heap : Heap
  pub machine : D

module _ {D : Type 0} (bus : Bus D) where
  abbrev write8 : Nic → D → ℕ → ℕ → D
  write8 n d reg value = bus.outb d ((n.io_base + reg) % 2 ^ 16) value

  abbrev write16 : Nic → D → ℕ → ℕ → D
  write16 n d reg value = bus.outw d ((n.io_base + reg) % 2 ^ 16) value

  abbrev write32 : Nic → D → ℕ → ℕ → D
  write32 n d reg value = bus.outl d ((n.io_base + reg) % 2 ^ 16) value

  abbrev read8 : Nic → D → ℕ → ℕ × D
  read8 n d reg = bus.inb d ((n.io_base + reg) % 2 ^ 16)

  abbrev read32 : Nic → D → ℕ → ℕ × D
  read32 n d reg = bus.inl d ((n.io_base + reg) % 2 ^ 16)

  -- The card's reading place stays 16 bytes behind the offset, as a u16.
  abbrev tell_offset : Nic → D → D
  tell_offset n d = write16 n d 0x38 ((n.rx_offset + 2 ^ 16 - 16) % 2 ^ 16)

  -- `none` is a length of 0. 1 is RTL_CMD_BUFE, and the status bit ROK.
  unfoldable pub rtl8139_poll_packet : Nic → D → (ℕ → ℕ) → Option Packet × Nic × D
  rtl8139_poll_packet n d buffer =
      let (cmd, d1) = read8 n d 0x37 in
      let reset : Nic = record n { rx_offset = 0 } in
      let moved : Nic = record n { rx_offset = wrapped (next_offset n buffer) } in
      let packet : Packet = record {
        start = n.rx_offset + 4;
        size = (rx_length n buffer + 2 ^ 16 - 4) % 2 ^ 16;
      } in
      if not n.nic_found
      then (none, n, d)
      else if not (bit_and cmd 0x01 == 0)
      then (none, n, d1)
      else if is_corrupt n buffer
      then (none, reset, write16 n (write16 n d1 0x38 (2 ^ 16 - 16)) 0x3e 0x01)
      else if rx_status n buffer % 2 == 0
      then (none, moved, tell_offset moved d1)
      else (some packet, moved, write16 n (tell_offset moved d1) 0x3e 0x01)

  -- The wait for the card, at most `left` times; 0x8000 is its sign of success.
  unfoldable pub wait_sent : Nic → D → ℕ → ℕ → Bool × D
  wait_sent n d tsd zero = (false, d)
  wait_sent n d tsd (suc left) =
      let (status, d1) = read32 n d tsd in
      let later = wait_sent n d1 tsd left in
      if bit_and status 0x8000 == 0 then later else (true, d1)

  -- The length is a u16, so that the request for memory does not overflow.
  unfoldable pub rtl8139_send_packet : Nic → Heap → D → List ℕ → SendState D
  rtl8139_send_packet n h d bytes =
      let (buf, h1) = kmalloc h (length bytes + 16) in
      let frame = padded bytes in
      let d1 = write32 n d (0x20 + n.tx_desc * 4) (buf % 2 ^ 32) in
      let d2 = write32 n d1 (0x10 + n.tx_desc * 4) (length frame) in
      let (sent, d3) = wait_sent n d2 (0x10 + n.tx_desc * 4) 100000 in
      if not n.nic_found || (ltb (length bytes) 14 || ltb 1518 (length bytes))
      then record { ok = false; frame = none; nic = n; heap = h; machine = d }
      else record {
        ok = sent;
        frame = some (buf, frame);
        nic = if sent then record n { tx_desc = (n.tx_desc + 1) % 4 } else n;
        heap = h1;
        machine = d3;
      }

  -- The software reset is awaited 1000 times at most; 0x10 is RTL_CMD_RESET.
  unfoldable pub wait_reset : Nic → D → ℕ → D
  wait_reset n d zero = d
  wait_reset n d (suc left) =
      let (cmd, d1) = read8 n d 0x37 in
      let later = wait_reset n (bus.outb d1 0x80 0) left in
      if bit_and cmd 0x10 == 0 then d1 else later

  unfoldable pub read_mac : Nic → D → ℕ → ℕ → List ℕ × D
  read_mac n d i zero = ([], d)
  read_mac n d i (suc left) =
      let (b, d1) = read8 n d i in let (bs, d2) = read_mac n d1 (i + 1) left in (b ∷ bs, d2)

  -- From the first access of the card's own registers on. The receive buffer is zeroed.
  unfoldable pub start_card : Nic → Heap → D → Bool × Nic × Heap × D
  start_card n h d =
      let reset = wait_reset n (write8 n (write8 n d 0x52 0x00) 0x37 0x10) 1000 in
      let (buffer, h1) = kmalloc h rx_buf_size in
      let d1 = write32 n reset 0x30 (buffer % 2 ^ 32) in
      let d2 = write32 n (write8 n d1 0x37 0x0c) 0x44 0x8f in
      let d3 = write32 n (write32 n d2 0x08 0xffffffff) 0x0c 0xffffffff in
      let (mac, d4) = read_mac n d3 0 6 in
      (true, record n { rx_buffer = buffer; rx_offset = 0; mac = mac; nic_found = true }, h1, d4)

  unfoldable pub rtl8139_init : Nic → Heap → D → Bool × Nic × Heap × D
  rtl8139_init n h d =
      let (loc, d1) = bus.pci_find_device d 0x10ec 0x8139 in
      let (bar0, d2) = bus.pci_read_bar0 d1 loc in
      let found : Nic = record n { io_base = bar0 % 2 ^ 16 / 4 * 4 } in
      let (cmd, d3) = bus.pci_read_command d2 loc in
      let enabled = bus.pci_write_command d3 loc (bit_or (cmd % 2 ^ 16) 0x05) in
      if loc == 0xffffffff
      then (false, n, h, d1)
      else if found.io_base == 0
      then (false, found, h, d2)
      else start_card found h enabled

unfoldable pub rtl8139_present : Nic → Bool
rtl8139_present n = n.nic_found

unfoldable pub rtl8139_get_mac : Nic → List ℕ
rtl8139_get_mac n = take 6 n.mac
