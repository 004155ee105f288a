-- ===== src/Net/Poll.antt =====
-- `net_poll` of kernel/core/net.c: what becomes of the frames that the network card has received.
use flare_os.Prelude.{
  ℕ, ◌&&◌, List, [], ◌∷◌, ◌++◌, map, Option, none, some, ltb, leb, ◌==◌, if◌then◌else◌, length,
  take, drop, get_or,
}
use flare_os.Net.Tcp.{TcpConn, Sent, ntohs, tcp_handle}
use flare_os.Net.Arp.{ArpEntry, ArpState, u32_at, arp_handle}
use flare_os.Net.Dns.{Dns, dns_handle}
use flare_os.Net.Dhcp.{Lease, dhcp_handle}

pub record Net : Type 0 where
  pub mac : List ℕ
  pub lease : Lease
  pub cache : List ArpEntry
  pub dns : Dns
  pub tcp : TcpConn

pub data Output : Type 0 where
  arp : List ℕ → Output
  dhcp : List ℕ → Output
  tcp : Sent → Output

abbrev outputs : (List ℕ → Output) → Option (List ℕ) → List Output
outputs f none = []
outputs f (some packet) = f packet ∷ []

unfoldable pub handle_arp : Net → List ℕ → Net × List Output
handle_arp net packet =
    let s : ArpState = record {
      our_ip = u32_at net.lease.our_ip 0;
      our_mac = net.mac;
      cache = net.cache;
    } in
    let (s1, reply) = arp_handle s packet in
    (record net { cache = s1.cache }, outputs Output.arp reply)

-- `beyond` gives what stands behind a packet in the card's buffer.
module _ (beyond : ℕ → ℕ) where
  unfoldable pub handle_udp : Net → List ℕ → Net × List Output
  handle_udp net packet =
      let port = ntohs packet 2 in
      let (lease, reply) = dhcp_handle beyond (drop 8 packet) net.mac net.lease in
      if port == 68
      then (record net { lease = lease }, outputs Output.dhcp reply)
      else if port == 12345
      then (record net { dns = dns_handle beyond (drop 8 packet) net.dns }, [])
      else (net, [])

  unfoldable pub handle_ip : Net → List ℕ → Net × List Output
  handle_ip net packet =
      let proto = get_or packet 9 0 in
      let payload = drop 20 packet in
      let (conn, sent) = tcp_handle beyond net.tcp payload in
      if ltb (length packet) 20
      then (net, [])
      else if proto == 17 && leb 8 (length payload)
      then handle_udp net payload
      else if proto == 6
      then (record net { tcp = conn }, map Output.tcp sent)
      else (net, [])

  unfoldable pub handle_frame : Net → List ℕ → Net × List Output
  handle_frame net frame =
      let etype = ntohs frame 12 in
      if ltb (length frame) 14
      then (net, [])
      else if etype == 0x0806
      then handle_arp net (drop 14 frame)
      else if etype == 0x0800
      then handle_ip net (drop 14 frame)
      else (net, [])

  -- The loop over the frames that `rtl8139_poll_packet` gives; one of length 0 says that there is none.
  unfoldable pub handle_frames : Net → List (List ℕ) → Net × List Output
  handle_frames net [] = (net, [])
  handle_frames net (frame ∷ frames) =
      let (net1, out1) = handle_frame net frame in
      let (net2, out2) = handle_frames net1 frames in
      if length frame == 0 then (net, []) else (net2, out1 ++ out2)

  unfoldable pub net_poll : Net → List (List ℕ) → Net × List Output
  net_poll net frames = handle_frames net (take 16 frames)
