-- ===== src/Net/Tcp.antt =====
-- The TCP connection of kernel/core/net.c.
use flare_os.Prelude.{
  ℕ, zero, suc, ◌+◌, ◌-◌, ◌*◌, ◌/◌, ◌%◌, ◌^◌, bit_and, Bool, true, false, not, ◌||◌, List, [], ◌∷◌,
  ◌++◌, ltb, leb, ◌==◌, if◌then◌else◌, length, get_or,
}
use flare_os.Net.Dns.{byte}

pub data TcpState : Type 0 where
  closed : TcpState
  syn_sent : TcpState
  established : TcpState
  fin_wait : TcpState
  done : TcpState

-- `rx` is the part of `rx_buf` that is in use, so `rx_len` is its length.
pub record TcpConn : Type 0 where
  pub state : TcpState
  pub dst_ip : ℕ
  pub dst_port : ℕ
  pub src_port : ℕ
  pub seq : ℕ
  pub ack : ℕ
  pub rx : List ℕ
  pub rx_capacity : ℕ
  pub rx_done : Bool

-- What `tcp_send_flags` sends: the flags, the connection's two counters, and the data.
pub record Sent : Type 0 where
  pub flags : ℕ
  pub seq : ℕ
  pub ack : ℕ
  pub bytes : List ℕ

abbrev pub tcp_fin : ℕ
tcp_fin = 0x01

abbrev pub tcp_syn : ℕ
tcp_syn = 0x02

abbrev pub tcp_rst : ℕ
tcp_rst = 0x04

abbrev pub tcp_psh : ℕ
tcp_psh = 0x08

abbrev pub tcp_ack : ℕ
tcp_ack = 0x10

abbrev pub tcp_send_flags : TcpConn → ℕ → List ℕ → Sent
tcp_send_flags c flags bytes = record { flags = flags; seq = c.seq; ack = c.ack; bytes = bytes }

-- Numbers in network order.
abbrev pub ntohs : List ℕ → ℕ → ℕ
ntohs data_bytes i = get_or data_bytes i 0 * 256 + get_or data_bytes (i + 1) 0

abbrev pub ntohl : List ℕ → ℕ → ℕ
ntohl data_bytes i = ntohs data_bytes i * 65536 + ntohs data_bytes (i + 2)

-- The fields of a segment that the handler reads.
abbrev pub seg_flags : List ℕ → ℕ
seg_flags seg = get_or seg 13 0

abbrev pub seg_seq : List ℕ → ℕ
seg_seq seg = ntohl seg 4

abbrev pub data_off : List ℕ → ℕ
data_off seg = get_or seg 12 0 / 16 * 4

-- A `u16`: an offset behind the end of the segment gives a large length.
abbrev pub payload_len : List ℕ → ℕ
payload_len seg = (length seg + 65536 - data_off seg) % 2 ^ 16

abbrev pub has : ℕ → ℕ → Bool
has flags flag = not (bit_and flags flag == 0)

-- `n` bytes from a place on, those behind the end of the segment included.
unfoldable pub bytes_from : (ℕ → ℕ) → List ℕ → ℕ → ℕ → List ℕ
bytes_from beyond seg pos zero = []
bytes_from beyond seg pos (suc n) = byte beyond seg pos ∷ bytes_from beyond seg (suc pos) n

-- `beyond` gives what stands behind the segment in the card's buffer.
module _ (beyond : ℕ → ℕ) where
  -- `memcpy` from the payload, if it fits the buffer.
  unfoldable pub rx_after : TcpConn → List ℕ → List ℕ
  rx_after c seg =
      let n = payload_len seg in
      if leb (length c.rx + n) c.rx_capacity
      then c.rx ++ bytes_from beyond seg (data_off seg) n
      else c.rx

  unfoldable pub receive_data : TcpConn → List ℕ → TcpConn × List Sent
  receive_data c seg =
      let n = payload_len seg in
      let c1 : TcpConn = record c { rx = rx_after c seg; ack = (seg_seq seg + n) % 2 ^ 32 } in
      if ltb 0 n then (c1, tcp_send_flags c1 tcp_ack [] ∷ []) else (c, [])

  unfoldable pub receive_fin : TcpConn → List ℕ → TcpConn × List Sent
  receive_fin c seg =
      let c1 : TcpConn = record c { ack = (seg_seq seg + payload_len seg + 1) % 2 ^ 32 } in
      if has (seg_flags seg) tcp_fin
      then (record c1 { rx_done = true; state = TcpState.done }, tcp_send_flags c1 tcp_ack [] ∷ [])
      else (c, [])

  unfoldable pub receive_rst : TcpConn → List ℕ → TcpConn
  receive_rst c seg =
      if has (seg_flags seg) tcp_rst then record c { rx_done = true; state = TcpState.done } else c

  unfoldable pub receive : TcpConn → List ℕ → TcpConn × List Sent
  receive c seg =
      let (c1, sent1) = receive_data c seg in
      let (c2, sent2) = receive_fin c1 seg in (receive_rst c2 seg, sent1 ++ sent2)

  -- `0x12` is `TCP_SYN | TCP_ACK`.
  unfoldable pub receive_syn_ack : TcpConn → List ℕ → TcpConn × List Sent
  receive_syn_ack c seg =
      let c1 : TcpConn = record c {
        ack = (seg_seq seg + 1) % 2 ^ 32;
        seq = ntohl seg 8;
        state = TcpState.established;
      } in
      if bit_and (seg_flags seg) 0x12 == 0x12
      then (c1, tcp_send_flags c1 tcp_ack [] ∷ [])
      else (c, [])

  unfoldable pub handle_by_state : TcpConn → List ℕ → TcpState → TcpConn × List Sent
  handle_by_state c seg TcpState.closed = (c, [])
  handle_by_state c seg TcpState.syn_sent = receive_syn_ack c seg
  handle_by_state c seg TcpState.established = receive c seg
  handle_by_state c seg TcpState.fin_wait = receive c seg
  handle_by_state c seg TcpState.done = (c, [])

  unfoldable pub tcp_handle : TcpConn → List ℕ → TcpConn × List Sent
  tcp_handle c seg =
      if ltb (length seg) 20 || not (ntohs seg 2 == c.src_port)
      then (c, [])
      else handle_by_state c seg c.state

unfoldable pub tcp_init_connect : ℕ → ℕ → TcpConn
tcp_init_connect dst_ip dst_port = record {
  state = TcpState.syn_sent;
  dst_ip = dst_ip;
  dst_port = dst_port;
  src_port = 49152;
  seq = 0x1000;
  ack = 0;
  rx = [];
  rx_capacity = 8192;
  rx_done = false;
}

-- `ok` is what the network card answers.
unfoldable pub tcp_send : TcpConn → List ℕ → Bool → Bool × TcpConn × List Sent
tcp_send c bytes ok = elim c.state [
  | TcpState.established ↦ (
    ok,
    if ok then record c { seq = (c.seq + length bytes) % 2 ^ 32 } else c,
    tcp_send_flags c 0x18 bytes ∷ [],
  )
  | _ ↦ (false, c, [])
]

unfoldable pub tcp_close : TcpConn → TcpConn × List Sent
tcp_close c = elim c.state [
  | TcpState.established ↦ (record c { state = TcpState.closed }, tcp_send_flags c 0x11 [] ∷ [])
  | _ ↦ (record c { state = TcpState.closed }, [])
]

-- The bytes of a segment from `tcp_send_flags`; its checksum is an argument.
unfoldable pub tcp_segment : TcpConn → ℕ → Sent → List ℕ
tcp_segment c checksum s =
    c.src_port / 256
    ∷ c.src_port % 256
    ∷ c.dst_port / 256
    ∷ c.dst_port % 256
    ∷ s.seq / 16777216
    ∷ s.seq / 65536 % 256
    ∷ s.seq / 256 % 256
    ∷ s.seq % 256
    ∷ s.ack / 16777216
    ∷ s.ack / 65536 % 256
    ∷ s.ack / 256 % 256
    ∷ s.ack % 256
    ∷ 0x50
    ∷ s.flags
    ∷ 0x20
    ∷ 0
    ∷ checksum / 256
    ∷ checksum % 256
    ∷ 0
    ∷ 0
    ∷ s.bytes
