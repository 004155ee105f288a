-- ===== src/Rtl8139/Tests.antt =====
-- A card that has a packet and sends at once, and the theorems at it.
use flare_os.Prelude.{
  ℕ, ◌+◌, ◌-◌, ◌<◌, ◌≡◌, refl, arith, true, [], some, length, replicate, ◌==◌, if◌then◌else◌,
}
use flare_os.Memory.{Heap, heap_base, kmalloc}
use flare_os.Rtl8139.{
  Bus, Nic, rx_buf_size, rx_buf_pad, padded, rtl8139_poll_packet, rtl8139_send_packet,
}
use flare_os.Rtl8139.Receiving.{PacketFits, rtl8139_poll_packet-PacketFits}
use flare_os.Rtl8139.Sending.{short_frame_overruns}

abbrev bus : Bus ℕ
bus = record {
  inb = λ d _. (0, d);
  inl = λ d _. (0x8000, d);
  outb = λ d _ _. d;
  outw = λ d _ _. d;
  outl = λ d _ _. d;
  pci_find_device = λ d _ _. (8, d);
  pci_read_bar0 = λ d _. (0xc001, d);
  pci_read_command = λ d _. (0, d);
  pci_write_command = λ d _ _. d;
}

abbrev nic : Nic
nic = record {
  io_base = 0xc000;
  rx_buffer = heap_base;
  rx_offset = 0;
  mac = [];
  nic_found = true;
  tx_desc = 0;
}

-- A header of a packet of 64 bytes.
abbrev buffer : ℕ → ℕ
buffer i = if i == 0 then 1 else if i == 2 then 64 else 0

polled : (rtl8139_poll_packet bus nic 0 buffer).0 ≡ some (record { start = 4; size = 60 })
unfolding rtl8139_poll_packet
polled = refl

rtl8139_poll_packet-PacketFits_example :
    PacketFits (rtl8139_poll_packet bus nic 0 buffer).0
    × ((rtl8139_poll_packet bus nic 0 buffer).1.rx_offset < rx_buf_size - rx_buf_pad)
rtl8139_poll_packet-PacketFits_example =
    rtl8139_poll_packet-PacketFits bus nic 0 buffer (omega arith)

abbrev empty_heap : Heap
empty_heap = record { heap_offset = 0 }

short_frame_overruns_example :
    ((rtl8139_send_packet bus nic empty_heap 0 (replicate 20 1)).frame
      ≡ some (heap_base + 0, padded (replicate 20 1)))
    × ((kmalloc (rtl8139_send_packet bus nic empty_heap 0 (replicate 20 1)).heap 64).0
        < heap_base + 0 + length (padded (replicate 20 1)))
short_frame_overruns_example =
    short_frame_overruns bus nic empty_heap 0 (replicate 20 1) 64 refl (omega arith) (omega arith)
      (omega arith)
