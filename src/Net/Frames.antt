-- ===== src/Net/Frames.antt =====
-- The checksums of kernel/core/net.c and the packets that net_send_eth, net_send_ip and net_send_udp
-- build. Addresses are `u32`s as they lie in memory: `Arp.u32_bytes`.
use flare_os.Prelude.{
  ℕ, zero, suc, ◌+◌, ◌-◌, ◌*◌, ◌/◌, ◌%◌, ◌^◌, ◌<◌, ◌≡◌, refl, bit_and, not, ◌&&◌, List, [], ◌∷◌,
  ◌++◌, Option, none, some, arith, ◌==◌, if◌then◌else◌, length, take,
}
use flare_os.Net.Arp.{u32_bytes}

-- The 16-bit words as the machine reads them, and a last byte that is left over.
unfoldable pub sum_words : List ℕ → ℕ
sum_words [] = 0
sum_words (a ∷ []) = a
sum_words (a ∷ b ∷ bytes) = a + b * 256 + sum_words bytes

-- `while (sum >> 16) sum = (sum & 0xFFFF) + (sum >> 16);`; two rounds are enough: `fold_carry-lt`.
unfoldable pub fold_carry : ℕ → ℕ → ℕ
fold_carry zero sum = sum
fold_carry (suc left) sum =
    let rest = fold_carry left (sum % 65536 + sum / 65536) in if sum / 65536 == 0 then sum else rest

pub fold_carry-lt : (sum : ℕ) → sum < 2 ^ 32 → fold_carry 2 sum < 65536
unfolding fold_carry
fold_carry-lt sum h = ground arith

unfoldable pub ip_checksum : List ℕ → ℕ
ip_checksum bytes = 65535 - fold_carry 2 (sum_words bytes % 2 ^ 32)

abbrev pub htons : ℕ → ℕ
htons n = n % 256 * 256 + n / 256 % 256

unfoldable pub transport_checksum : (src_ip dst_ip proto : ℕ) → List ℕ → ℕ
transport_checksum src_ip dst_ip proto bytes =
    65535
    - fold_carry 2 (
        (src_ip / 65536
          + src_ip % 65536
          + (dst_ip / 65536 + dst_ip % 65536)
          + htons proto
          + htons (length bytes)
          + sum_words bytes)
        % 2 ^ 32)

-- A `u16` in network order, and one that is stored as it is.
abbrev net_order : ℕ → List ℕ
net_order n = n / 256 % 256 ∷ n % 256 ∷ []

abbrev as_stored : ℕ → List ℕ
as_stored n = n % 256 ∷ n / 256 % 256 ∷ []

unfoldable pub net_send_eth : (dst_mac our_mac : List ℕ) → (ethertype : ℕ) → List ℕ → List ℕ
net_send_eth dst_mac our_mac ethertype payload =
    dst_mac ++ our_mac ++ net_order ethertype ++ payload

-- The address that ARP is to resolve; there is none for a broadcast.
unfoldable pub next_hop : (dst_ip our_ip subnet_mask gateway_ip : ℕ) → Option ℕ
next_hop dst_ip our_ip subnet_mask gateway_ip =
    if dst_ip == 0xffffffff
    then none
    else if not (subnet_mask == 0) && not (bit_and dst_ip subnet_mask == bit_and our_ip subnet_mask)
    then some gateway_ip
    else some dst_ip

unfoldable pub ip_header : (id proto our_ip dst_ip total_len checksum : ℕ) → List ℕ
ip_header id proto our_ip dst_ip total_len checksum =
    0x45 ∷ 0 ∷ []
    ++ net_order total_len
    ++ net_order id
    ++ 0x40 ∷ 0 ∷ 64 ∷ proto ∷ []
    ++ as_stored checksum
    ++ u32_bytes our_ip
    ++ u32_bytes dst_ip

-- The packet in `ip_buf`.
unfoldable pub net_send_ip : (id proto our_ip dst_ip : ℕ) → List ℕ → List ℕ
net_send_ip id proto our_ip dst_ip payload =
    let total_len = (20 + length payload) % 2 ^ 16 in
    let checksum = ip_checksum (ip_header id proto our_ip dst_ip total_len 0) in
    ip_header id proto our_ip dst_ip total_len checksum ++ payload

unfoldable pub udp_header : (src_port dst_port udp_len checksum : ℕ) → List ℕ
udp_header src_port dst_port udp_len checksum =
    net_order src_port ++ net_order dst_port ++ net_order udp_len ++ as_stored checksum

-- The datagram in `udp_buf`.
unfoldable pub net_send_udp : (our_ip dst_ip src_port dst_port : ℕ) → List ℕ → List ℕ
net_send_udp our_ip dst_ip src_port dst_port bytes =
    let udp_len = (8 + length bytes) % 2 ^ 16 in
    let sum =
      transport_checksum our_ip dst_ip 17 (udp_header src_port dst_port udp_len 0 ++ bytes) in
    udp_header src_port dst_port udp_len (if sum == 0 then 0xffff else sum) ++ bytes

-- Adding its complement to a folded sum gives the sum of all ones.
fold_carry-complement :
    (sum : ℕ) → 0 < sum → sum < 2 ^ 24 → fold_carry 2 (sum + (65535 - fold_carry 2 sum)) ≡ 65535
unfolding fold_carry
fold_carry-complement sum nonzero small = ground arith

sum_words-header :
    (id proto our_ip dst_ip total_len checksum : ℕ)
    → checksum < 65536
    → sum_words (ip_header id proto our_ip dst_ip total_len checksum)
      ≡ sum_words (ip_header id proto our_ip dst_ip total_len 0) + checksum
unfolding sum_words ip_header
sum_words-header id proto our_ip dst_ip total_len checksum small = omega arith

header-small :
    (id proto our_ip dst_ip total_len : ℕ)
    → proto < 256
    → (0 < sum_words (ip_header id proto our_ip dst_ip total_len 0))
      × (sum_words (ip_header id proto our_ip dst_ip total_len 0) < 2 ^ 24)
unfolding sum_words ip_header
header-small id proto our_ip dst_ip total_len small = (omega arith, omega arith)

ip_header-checks :
    (id proto our_ip dst_ip total_len : ℕ)
    → proto < 256
    → ip_checksum (
        ip_header id proto our_ip dst_ip total_len
          (ip_checksum (ip_header id proto our_ip dst_ip total_len 0)))
      ≡ 0
unfolding ip_checksum
ip_header-checks id proto our_ip dst_ip total_len small =
    let sum = sum_words (ip_header id proto our_ip dst_ip total_len 0) in
    let (nonzero, below) = header-small id proto our_ip dst_ip total_len small in
    let same : sum % 2 ^ 32 ≡ sum = omega (arith, below) in
    let checksum = 65535 - fold_carry 2 (sum % 2 ^ 32) in
    let whole = sum_words-header id proto our_ip dst_ip total_len checksum (omega arith) in
    let fits : (sum + (65535 - fold_carry 2 sum)) % 2 ^ 32 ≡ sum + (65535 - fold_carry 2 sum) =
      omega (arith, below) in
    rw (whole, same, fits, fold_carry-complement sum nonzero below) refl

-- The header of a packet that net_send_ip builds passes the test of its receiver: the checksum over
-- its 20 bytes, the stored checksum included, is 0, for a protocol number of one byte.
pub net_send_ip-checks :
    (id proto our_ip dst_ip : ℕ) (payload : List ℕ)
    → proto < 256
    → ip_checksum (take 20 (net_send_ip id proto our_ip dst_ip payload)) ≡ 0
unfolding net_send_ip ip_header
net_send_ip-checks id proto our_ip dst_ip payload small =
    ip_header-checks id proto our_ip dst_ip ((20 + length payload) % 2 ^ 16) small
