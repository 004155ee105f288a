-- ===== src/Net/Stream.antt =====
-- The byte stream that kernel/core/net.c carries from `tcp_send` to `tcp_handle`.
use flare_os.Prelude.{
  replicate, length-replicate, ◌-◌, ℕ, ◌+◌, ◌%◌, ◌^◌, ◌≤◌, ◌<◌, ◌≡◌, refl, sym, ap, ◌∙◌, true,
  false, List, [], ◌∷◌, ◌++◌, arith, leb, ltb, ◌==◌, length, length-append, take-all, ◌>>=◌, Option,
  none, some, Bool,
}
use flare_os.Net.Link.{Link, overrun, refused, on_wire, transmit, transmit-fits, net_poll-segment}
use flare_os.Net.Poll.{Net, net_poll}
use flare_os.Net.Receiving.{bytes_from-inside}
use flare_os.Net.Tcp.{
  bytes_from, TcpConn, TcpState, Sent, rx_after, receive_data, receive_fin, receive_rst, receive,
  handle_by_state, tcp_handle, tcp_send, tcp_send_flags, tcp_segment, payload_len, seg_seq, ntohs,
}
use mathlib.Core.List.{append-nil, append_assoc}

-- A segment of data, sent with PSH and ACK.
abbrev pub data_segment : TcpConn → ℕ → List ℕ → List ℕ
data_segment p checksum bytes = tcp_segment p checksum (tcp_send_flags p 0x18 bytes)

abbrev pub Fields : TcpConn → TcpConn → Type 0
Fields p c = (p.dst_port ≡ c.src_port) × (p.seq < 2 ^ 32) × (c.state ≡ TcpState.established)

pub payload_len-data :
    (p : TcpConn) (checksum : ℕ) (bytes : List ℕ)
    → length bytes ≤ 1480
    → payload_len (data_segment p checksum bytes) ≡ length bytes
unfolding tcp_segment
payload_len-data p checksum bytes h = omega arith

seg_seq-data :
    (p : TcpConn) (checksum : ℕ) (bytes : List ℕ)
    → p.seq < 2 ^ 32
    → seg_seq (data_segment p checksum bytes) ≡ p.seq
unfolding tcp_segment
seg_seq-data p checksum bytes h = omega arith

pub rx_after-data :
    (beyond : ℕ → ℕ) (p c : TcpConn) (checksum : ℕ) (bytes : List ℕ)
    → length bytes ≤ 1480
    → length c.rx + length bytes ≤ c.rx_capacity
    → rx_after beyond c (data_segment p checksum bytes) ≡ c.rx ++ bytes
unfolding rx_after tcp_segment
rx_after-data beyond p c checksum bytes small room =
    let n = payload_len-data p checksum bytes small in
    let fits : leb (length c.rx + payload_len (data_segment p checksum bytes)) c.rx_capacity
        ≡ true =
      ground (arith, n) in
    let whole : bytes_from beyond (data_segment p checksum bytes) 20
          (payload_len (data_segment p checksum bytes))
        ≡ bytes =
      bytes_from-inside beyond (data_segment p checksum bytes) 20
        (payload_len (data_segment p checksum bytes)) (omega (arith, n))
      ∙ take-all (payload_len (data_segment p checksum bytes)) bytes (omega (arith, n)) in
    rw (fits, whole) refl

receive-data :
    (beyond : ℕ → ℕ) (p c : TcpConn) (checksum : ℕ) (bytes : List ℕ)
    → p.seq < 2 ^ 32
    → 0 < length bytes
    → length bytes ≤ 1480
    → (receive beyond c (data_segment p checksum bytes)).0 ≡ record c {
      rx = rx_after beyond c (data_segment p checksum bytes);
      ack = (p.seq + length bytes) % 2 ^ 32;
    }
unfolding receive receive_data receive_fin receive_rst tcp_segment
receive-data beyond p c checksum bytes seq positive small =
    let n = payload_len-data p checksum bytes small in
    let more : ltb 0 (payload_len (data_segment p checksum bytes)) ≡ true = ground (arith, n) in
    rw (more, seg_seq-data p checksum bytes seq, n) refl

-- A data segment for the connection stores its bytes when they fit, and is acknowledged.
pub tcp_handle-data :
    (beyond : ℕ → ℕ) (p c : TcpConn) (checksum : ℕ) (bytes : List ℕ)
    → Fields p c
    → c.src_port < 65536
    → 0 < length bytes
    → length bytes ≤ 1480
    → (tcp_handle beyond c (data_segment p checksum bytes)).0 ≡ record c {
      rx = rx_after beyond c (data_segment p checksum bytes);
      ack = (p.seq + length bytes) % 2 ^ 32;
    }
unfolding tcp_handle handle_by_state tcp_segment
tcp_handle-data beyond p c checksum bytes f port more small =
    let long : ltb (length (data_segment p checksum bytes)) 20 ≡ false = ground arith in
    let for_us : (ntohs (data_segment p checksum bytes) 2 == c.src_port) ≡ true =
      ground (arith, f.0) in
    rw (long, for_us)
      (ap (λ (s : TcpState). (handle_by_state beyond c (data_segment p checksum bytes) s).0) f.2
        ∙ receive-data beyond p c checksum bytes f.1 more small)

abbrev pub concat : List (List ℕ) → List ℕ
concat [] = []
concat (chunk ∷ chunks) = chunk ++ concat chunks

-- From 6 bytes on a frame needs no zeros behind it, and up to 1460 bytes the packet fits `ip_buf`.
abbrev pub Sendable : List (List ℕ) → Type 0
Sendable [] = Unit {0}
Sendable (chunk ∷ chunks) = (6 ≤ length chunk) × (length chunk ≤ 1460) × Sendable chunks

abbrev pub InStep : TcpConn → TcpConn → Type 0
InStep p c = Fields p c × (c.src_port < 65536) × (p.state ≡ TcpState.established) × (c.ack ≡ p.seq)

-- A chunk with the zeros behind it in its frame.
abbrev pub filled : List ℕ → List ℕ
filled chunk = chunk ++ replicate (6 - length chunk) 0

module _ (beyond : ℕ → ℕ) (link : Link) (sum : List ℕ → ℕ) where
  -- What `tcp_send_flags` answers for the segment of a send, and the receiver behind it: the frame that
  -- goes on the wire is what its `net_poll` finds. `none` is a buffer that is overrun.
  unfoldable pub carry : ℕ → TcpConn → Net → List Sent → Option (Bool × Net)
  carry id p net [] = some (false, net)
  carry id p net (s ∷ sent) = elim (transmit link id (tcp_segment p (sum s.bytes) s)) [
    | overrun ↦ none
    | refused ↦ some (false, net)
    | on_wire frame ↦ some (true, (net_poll beyond net (frame ∷ [])).0)
  ]

  -- One end sends the chunks one by one, with the next `g_ip_id` each, and the other polls its card
  -- behind each.
  unfoldable pub deliver : ℕ → TcpConn → Net → List (List ℕ) → Option (TcpConn × Net)
  deliver id p net [] = some (p, net)
  deliver id p net (chunk ∷ chunks) = carry id p net (tcp_send p chunk true).2 >>= λ r.
      deliver ((id + 1) % 2 ^ 16) (tcp_send p chunk r.0).1 r.1 chunks

  tcp_send-established :
      (p : TcpConn) (bytes : List ℕ)
      → p.state ≡ TcpState.established
      → ((tcp_send p bytes true).1 ≡ record p { seq = (p.seq + length bytes) % 2 ^ 32 })
        × ((tcp_send p bytes true).2 ≡ tcp_send_flags p 0x18 bytes ∷ [])
  unfolding tcp_send
  tcp_send-established p bytes e = ground (arith, e)

  length-segment :
      (p : TcpConn) (checksum : ℕ) (bytes : List ℕ)
      → length (data_segment p checksum bytes) ≡ 20 + length bytes
  unfolding tcp_segment
  length-segment p checksum bytes = omega arith

  -- The receiver behind a chunk.
  abbrev pub received : TcpConn → Net → List ℕ → Net
  received p net chunk = record net {
    tcp = record (net.tcp) { rx = net.tcp.rx ++ chunk; ack = (p.seq + length chunk) % 2 ^ 32 };
  }

  -- What one chunk does to the receiver.
  pub chunk-carried :
      (id : ℕ) (p : TcpConn) (net : Net) (chunk : List ℕ)
      → InStep p net.tcp
      → 0 < length chunk
      → length chunk ≤ 1460
      → length net.tcp.rx + length (filled chunk) ≤ net.tcp.rx_capacity
      → carry id p net (tcp_send p chunk true).2 ≡ some (true, received p net (filled chunk))
  unfolding carry tcp_segment
  chunk-carried id p net chunk s long short room =
      let segment = data_segment p (sum chunk) chunk in
      let n = length-segment p (sum chunk) chunk in
      let m = length-append chunk (replicate (6 - length chunk) 0) in
      let z : length {A = ℕ} (replicate (6 - length chunk) 0) ≡ 6 - length chunk =
        length-replicate (6 - length chunk) 0 in
      let fill : 26 - length segment ≡ 6 - length chunk = omega (arith, n) in
      let handled : (tcp_handle beyond net.tcp (data_segment p (sum chunk) (filled chunk))).0
          ≡ (received p net (filled chunk)).tcp =
        tcp_handle-data beyond p net.tcp (sum chunk) (filled chunk) s.0 s.1 (omega (arith, m))
          (omega (arith, m, z))
        ∙ ap
            (λ (rx : List ℕ). record (net.tcp) {
              rx = rx;
              ack = (p.seq + length (filled chunk)) % 2 ^ 32;
            })
            (rx_after-data beyond p net.tcp (sum chunk) (filled chunk) (omega (arith, m, z))
              room) in
      rw
        (
          (tcp_send-established p chunk s.2).1,
          carry,
          transmit-fits link id segment (omega (arith, n)),
          fill,
        )
        (ap (λ (after : Net). some (true, after))
          (net_poll-segment beyond net link id segment (replicate (6 - length chunk) 0)
            ∙ ap (λ (c : TcpConn). record net { tcp = c }) handled))

  filled-long : (chunk : List ℕ) → 6 ≤ length chunk → filled chunk ≡ chunk
  filled-long chunk h =
      let none_ : 6 - length chunk ≡ 0 = omega arith in rw none_ (append-nil chunk)

  deliver-next :
      (id : ℕ) (p : TcpConn) (net : Net) (chunk : List ℕ) (chunks : List (List ℕ))
      → InStep p net.tcp
      → 6 ≤ length chunk
      → length chunk ≤ 1460
      → length net.tcp.rx + length chunk ≤ net.tcp.rx_capacity
      → deliver id p net (chunk ∷ chunks)
        ≡ deliver
            ((id + 1) % 2 ^ 16)
            (record p { seq = (p.seq + length chunk) % 2 ^ 32 })
            (received p net chunk)
            chunks
  unfolding deliver
  deliver-next id p net chunk chunks s long short room =
      let same = filled-long chunk long in
      rw (chunk-carried id p net chunk s (omega arith) short (rw same room), same)
        (ap (λ (q : TcpConn). deliver ((id + 1) % 2 ^ 16) q (received p net chunk) chunks)
          (tcp_send-established p chunk s.2).0)

  -- Chunks of 6 to 1460 bytes that fit the receiver's buffer together, sent by one end of an
  -- established connection over a link that loses nothing and whose card takes every frame of at most
  -- 1518 bytes: no buffer on the way is overrun, every send succeeds, the bytes stand in the
  -- receiver's buffer one behind the other, and it then expects the byte that the sender sends next.
  pub deliver-concat :
      (id : ℕ) (p : TcpConn) (net : Net) (chunks : List (List ℕ))
      → InStep p net.tcp
      → Sendable chunks
      → length net.tcp.rx + length (concat chunks) ≤ net.tcp.rx_capacity
      → (p' : TcpConn) × (net' : Net) × (deliver id p net chunks ≡ some (p', net'))
        × (net'.tcp.rx ≡ net.tcp.rx ++ concat chunks)
        × (net'.tcp.ack ≡ p'.seq)
  unfolding deliver
  deliver-concat id p net [] s ok room = (p, net, refl, sym (append-nil net.tcp.rx), s.3)
  deliver-concat id p net (chunk ∷ chunks) s ok room =
      let len = length-append chunk (concat chunks) in
      let (p', net', e, rx, ack) =
        deliver-concat ((id + 1) % 2 ^ 16) (record p { seq = (p.seq + length chunk) % 2 ^ 32 })
          (received p net chunk) chunks ((s.0.0, omega arith, s.0.2), s.1, s.2, refl) ok.2
          (omega (arith, room, len, length-append net.tcp.rx chunk)) in
      (
        p',
        net',
        deliver-next id p net chunk chunks s ok.0 ok.1 (omega (arith, room, len)) ∙ e,
        rx ∙ append_assoc net.tcp.rx chunk (concat chunks),
        ack,
      )
