-- ===== src/Net/Dhcp.antt =====
-- `dhcp_discover` and `dhcp_handle` of kernel/core/net.c.
-- A packet's fields are read in place: the options start at byte 240. An option that is cut off by
-- the end of the packet is read from what stands behind it, which `beyond` gives.
use flare_os.Prelude.{
  ◌≤◌, arith, ℕ, zero, suc, ◌+◌, ◌≡◌, refl, Bool, true, not, ◌&&◌, ◌||◌, List, [], ◌∷◌, ◌++◌,
  Option, none, some, ltb, leb, ◌==◌, if◌then◌else◌, length, take, drop, replicate,
}
use flare_os.Net.Dns.{byte}
use flare_os.Net.Arp.{six}

-- `g_our_ip`, `g_gateway_ip`, `g_dns_ip`, `g_subnet_mask` and `g_net_ready`, addresses as their bytes.
pub record Lease : Type 0 where
  pub our_ip : List ℕ
  pub gateway_ip : List ℕ
  pub dns_ip : List ℕ
  pub subnet_mask : List ℕ
  pub net_ready : Bool

-- A packet of 300 bytes from its transaction, hardware address and options.
unfoldable pub dhcp_packet : List ℕ → List ℕ → List ℕ → List ℕ
dhcp_packet xid mac options =
    1 ∷ 1 ∷ 6 ∷ 0 ∷ []
    ++ xid
    ++ 0 ∷ 0 ∷ 0x80 ∷ 0 ∷ []
    ++ replicate 16 0
    ++ mac
    ++ replicate 10 0
    ++ replicate 192 0
    ++ 0x63 ∷ 0x82 ∷ 0x53 ∷ 0x63 ∷ []
    ++ options

-- `sizeof(DhcpPacket) - 52` bytes of a packet are sent.
abbrev sent_len : ℕ
sent_len = 248

unfoldable pub dhcp_discover : List ℕ → List ℕ
dhcp_discover mac = take sent_len (
    dhcp_packet (0x12 ∷ 0x34 ∷ 0x56 ∷ 0x78 ∷ []) mac
      (53 ∷ 1 ∷ 1 ∷ 55 ∷ 3 ∷ 1 ∷ 3 ∷ 6 ∷ 255 ∷ replicate 51 0))

module _ (beyond : ℕ → ℕ) (packet : List ℕ) where
  abbrev opts : ℕ → ℕ
  opts i = byte beyond packet (240 + i)

  abbrev four : ℕ → List ℕ
  four i =
      byte beyond packet i
      ∷ byte beyond packet (i + 1)
      ∷ byte beyond packet (i + 2)
      ∷ byte beyond packet (i + 3)
      ∷ []

  -- What an option with a tag other than 0 and 255 sets.
  unfoldable pub option_type : ℕ → ℕ → ℕ
  option_type i msg_type = if opts i == 53 && leb 1 (opts (i + 1)) then opts (i + 2) else msg_type

  unfoldable pub option_lease : ℕ → Lease → Lease
  option_lease i l =
      let tag = opts i in
      let has_ip = leb 4 (opts (i + 1)) in
      let ip = four (240 + i + 2) in
      record l {
        gateway_ip = if tag == 3 && has_ip then ip else l.gateway_ip;
        dns_ip = if tag == 6 && has_ip then ip else l.dns_ip;
        subnet_mask = if tag == 1 && has_ip then ip else l.subnet_mask;
      }

  -- The loop over the options, with the message type so far. A round moves on by at least one, so
  -- the 60 rounds that it starts with are enough: `read_options-enough`.
  unfoldable pub read_options : ℕ → ℕ → ℕ → Lease → ℕ × Lease
  read_options zero i msg_type l = (msg_type, l)
  read_options (suc left) i msg_type l =
      let padded = read_options left (i + 1) msg_type l in
      let rest =
        read_options left (i + 2 + opts (i + 1)) (option_type i msg_type) (option_lease i l) in
      if leb 60 i || opts i == 255 then (msg_type, l) else if opts i == 0 then padded else rest

  -- One more round changes nothing.
  pub read_options-enough :
      (left i msg_type : ℕ) (l : Lease)
      → 60 ≤ i + left
      → read_options (suc left) i msg_type l ≡ read_options left i msg_type l
  unfolding read_options
  read_options-enough zero i msg_type l h = ground arith
  read_options-enough (suc left) i msg_type l h = ground (
    arith,
    read_options-enough left (i + 1) msg_type l,
    read_options-enough left (i + 2 + opts (i + 1)) (option_type i msg_type) (option_lease i l),
  )

  -- The answer to an offer: `yiaddr` is at byte 16, `siaddr` at byte 20.
  unfoldable pub dhcp_request : List ℕ → List ℕ
  dhcp_request mac = take sent_len (
      dhcp_packet (four 4) mac
        (53 ∷ 1 ∷ 3 ∷ 50 ∷ 4 ∷ [] ++ four 16 ++ 54 ∷ 4 ∷ [] ++ four 20 ++ 255 ∷ replicate 44 0))

  -- With the packet that is sent, when there is one.
  unfoldable pub dhcp_handle : List ℕ → Lease → Lease × Option (List ℕ)
  dhcp_handle mac l =
      let (msg_type, l1) = read_options 60 0 0 l in
      if ltb (length packet) 240 || not (byte beyond packet 0 == 2)
      then (l, none)
      else if msg_type == 2
      then (record l1 { our_ip = four 16 }, some (dhcp_request mac))
      else if msg_type == 5
      then (record l1 { net_ready = true }, none)
      else (l1, none)

-- The answer to an offer ends behind the third byte of the address that it asks for: the address is
-- cut short, and the server's identifier and the end mark are missing.
pub dhcp_request-cut :
    (beyond : ℕ → ℕ) (packet mac : List ℕ)
    → length mac ≡ 6
    → (length (dhcp_request beyond packet mac) ≡ 248)
      × (drop 240 (dhcp_request beyond packet mac)
          ≡ 53
            ∷ 1
            ∷ 3
            ∷ 50
            ∷ 4
            ∷ byte beyond packet 16
            ∷ byte beyond packet 17
            ∷ byte beyond packet 18
            ∷ [])
unfolding dhcp_request dhcp_packet
dhcp_request-cut beyond packet mac len =
    let (a, b, c, d, e, f, same) = six mac len in rw same (refl, refl)
