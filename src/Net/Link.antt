-- ===== src/Net/Link.antt =====
-- How a segment of kernel/core/net.c gets from net_send_ip of one machine to net_poll of another: the
-- buffers `ip_buf` and `frame`, the card's test of the length and the zeros that it fills a frame up with.
use flare_os.Prelude.{
  ◌++◌, ◌-◌, replicate, length-append, ℕ, ◌+◌, ◌≤◌, ◌≡◌, refl, ap, false, List, [], ◌∷◌, arith, ltb,
  ◌==◌, if◌then◌else◌, length,
}
use flare_os.Rtl8139.{padded}
use flare_os.Net.Tcp.{tcp_handle}
use flare_os.Net.Frames.{ip_header, net_send_ip, net_send_eth}
use flare_os.Net.Poll.{Net, handle_ip, handle_frame, handle_frames, net_poll}

-- The addresses of a packet, the receiver's MAC address being resolved.
pub record Link : Type 0 where
  pub our_mac : ℕ → ℕ
  pub dst_mac : ℕ → ℕ
  pub our_ip : ℕ
  pub dst_ip : ℕ

abbrev pub mac_bytes : (ℕ → ℕ) → List ℕ
mac_bytes mac = mac 0 ∷ mac 1 ∷ mac 2 ∷ mac 3 ∷ mac 4 ∷ mac 5 ∷ []

-- A send writes behind the end of a buffer, is refused by the card, or puts a frame on the wire.
pub data Outgoing : Type 0 where
  overrun refused : Outgoing
  on_wire : List ℕ → Outgoing

-- `net_send_ip` with `ip_buf[1500]`, `net_send_eth` with `frame[1518]`, and `rtl8139_send_packet`; 6 is
-- IP_PROTO_TCP. The `tcp_buf[1500]` of `tcp_send_flags` is not overrun before `ip_buf`.
unfoldable pub transmit : Link → ℕ → List ℕ → Outgoing
transmit link id segment =
    let packet = net_send_ip id 6 link.our_ip link.dst_ip segment in
    let frame = net_send_eth (mac_bytes link.dst_mac) (mac_bytes link.our_mac) 0x0800 packet in
    if ltb 1500 (length packet)
    then overrun
    else if ltb 1518 (length frame)
    then refused
    else on_wire (padded frame)

-- The frame of a segment.
abbrev pub frame_of : Link → ℕ → List ℕ → List ℕ
frame_of link id segment =
    net_send_eth (mac_bytes link.dst_mac) (mac_bytes link.our_mac) 0x0800
      (net_send_ip id 6 link.our_ip link.dst_ip segment)

length-packet :
    (link : Link) (id : ℕ) (segment : List ℕ)
    → length (net_send_ip id 6 link.our_ip link.dst_ip segment) ≡ 20 + length segment
unfolding net_send_ip ip_header
length-packet link id segment = omega arith

length-frame :
    (link : Link) (id : ℕ) (segment : List ℕ)
    → length (frame_of link id segment) ≡ 34 + length segment
unfolding net_send_eth
length-frame link id segment = omega (arith, length-packet link id segment)

-- A segment of at most 1480 bytes goes on the wire, filled up to 60 bytes of the frame.
pub transmit-fits :
    (link : Link) (id : ℕ) (segment : List ℕ)
    → length segment ≤ 1480
    → transmit link id segment
      ≡ on_wire (frame_of link id segment ++ replicate (26 - length segment) 0)
unfolding transmit
transmit-fits link id segment short =
    let p = length-packet link id segment in
    let f = length-frame link id segment in
    let room : ltb 1500 (length (net_send_ip id 6 link.our_ip link.dst_ip segment)) ≡ false =
      ground (arith, p) in
    let taken : ltb 1518 (length (frame_of link id segment)) ≡ false = ground (arith, f) in
    let fill : 60 - length (frame_of link id segment) ≡ 26 - length segment = omega (arith, f) in
    rw (room, taken) (ap (λ (n : ℕ). on_wire (frame_of link id segment ++ replicate n 0)) fill)

-- `zeros` is what the card has put behind the frame.
module _ (beyond : ℕ → ℕ) (net : Net) (link : Link) (id : ℕ) (segment zeros : List ℕ) where
  handle_ip-segment :
      (handle_ip beyond net (net_send_ip id 6 link.our_ip link.dst_ip segment ++ zeros)).0
      ≡ record net { tcp = (tcp_handle beyond net.tcp (segment ++ zeros)).0 }
  unfolding handle_ip net_send_ip ip_header
  handle_ip-segment =
      let long : ltb (length (net_send_ip id 6 link.our_ip link.dst_ip segment ++ zeros)) 20
          ≡ false =
        ground arith in
      rw long refl

  pub net_poll-segment :
      (net_poll beyond net ((frame_of link id segment ++ zeros) ∷ [])).0
      ≡ record net { tcp = (tcp_handle beyond net.tcp (segment ++ zeros)).0 }
  unfolding net_poll handle_frames handle_frame net_send_eth
  net_poll-segment =
      let f = length-frame link id segment in
      let g = length-append (frame_of link id segment) zeros in
      let some_ : (length (frame_of link id segment ++ zeros) == 0) ≡ false =
        ground (arith, f, g) in
      let long : ltb (length (frame_of link id segment ++ zeros)) 14 ≡ false =
        ground (arith, f, g) in
      rw (some_, long) handle_ip-segment
