-- ===== src/Rtl8139/Receiving.antt =====
-- The receive buffer of kernel/drivers/rtl8139.c.
use flare_os.Prelude.{
  ℕ, ◌+◌, ◌-◌, ◌%◌, ◌^◌, ◌≤◌, ◌<◌, ◌≡◌, inl, inr, false, not, bit_and, Option, none, some, arith,
  ◌==◌, Bool-cases,
}
use flare_os.Rtl8139.{
  Bus, Nic, Packet, rx_buf_size, rx_buf_pad, rx_length, rx_status, next_offset, is_corrupt, wrapped,
  rtl8139_poll_packet,
}

-- The packet is in the buffer, behind its header, and has the length of a frame.
abbrev pub PacketFits : Option Packet → Type 0
PacketFits none = Unit {0}
PacketFits (some p) =
    (4 ≤ p.start) × (p.start + p.size ≤ rx_buf_size) × (56 ≤ p.size) × (p.size ≤ 1514)

sizes :
    (n : Nic) (buffer : ℕ → ℕ)
    → n.rx_offset < rx_buf_size - rx_buf_pad
    → is_corrupt n buffer ≡ false
    → PacketFits (
        some
          (record { start = n.rx_offset + 4; size = (rx_length n buffer + 2 ^ 16 - 4) % 2 ^ 16 }))
sizes n buffer h sound =
    let low : 60 ≤ rx_length n buffer = ground (arith, sound) in
    let high : rx_length n buffer ≤ 1518 = ground (arith, sound) in
    let inside : next_offset n buffer < rx_buf_size = ground (arith, sound) in
    (
      omega arith,
      omega (arith, low, high, inside, h),
      omega (arith, low, high),
      omega (arith, low, high),
    )

wrapped_below : (offset : ℕ) → wrapped offset < rx_buf_size - rx_buf_pad
wrapped_below offset = ground arith

module _ {D : Type 0} (bus : Bus D) where
  -- For an offset whose header is in the receive buffer, whatever the card has written: the next offset is
  -- one of that kind, and a packet that is handed out is in the buffer, behind its header, with 56 to 1514
  -- bytes.
  pub rtl8139_poll_packet-PacketFits :
      (n : Nic) (d : D) (buffer : ℕ → ℕ)
      → n.rx_offset < rx_buf_size - rx_buf_pad
      → PacketFits (rtl8139_poll_packet bus n d buffer).0
        × ((rtl8139_poll_packet bus n d buffer).1.rx_offset < rx_buf_size - rx_buf_pad)
  unfolding rtl8139_poll_packet
  rtl8139_poll_packet-PacketFits n d buffer h = elim (Bool-cases (not n.nic_found)) [
    | inl off ↦ rw off (tt, h)
    | inr on ↦
        elim (Bool-cases (not (bit_and (bus.inb d ((n.io_base + 0x37) % 2 ^ 16)).0 0x01 == 0))) [
          | inl empty ↦ rw (on, empty) (tt, h)
          | inr full ↦ elim (Bool-cases (is_corrupt n buffer)) [
            | inl corrupt ↦ rw (on, full, corrupt) (tt, omega arith)
            | inr sound ↦ elim (Bool-cases (rx_status n buffer % 2 == 0)) [
              | inl bad ↦ rw (on, full, sound, bad) (tt, wrapped_below (next_offset n buffer))
              | inr good ↦
                  rw (on, full, sound, good)
                    (sizes n buffer h sound, wrapped_below (next_offset n buffer))
            ]
          ]
        ]
  ]
