-- ===== src/Net/Receiving.antt =====
-- What any segment does to the receive buffer of kernel/core/net.c.
use flare_os.Prelude.{
  ℕ, zero, suc, ◌+◌, ◌-◌, ◌≤◌, ◌<◌, ◌≡◌, refl, ◌⊎◌, inl, inr, List, [], ◌∷◌, ◌++◌, ap, ◌∙◌, take,
  arith, leb→le, leb, length, drop, get_or, length-append, length-drop, take-all, Bool-cases,
}
use flare_os.Net.Dns.{byte}
use flare_os.Net.Tcp.{
  TcpConn, TcpState, bytes_from, data_off, payload_len, rx_after, receive_data, receive_fin,
  receive_rst, receive, receive_syn_ack, handle_by_state, tcp_handle,
}

-- The buffer is as it was, or has the whole payload of a segment behind it and is not overrun.
abbrev pub Stores : TcpConn → List ℕ → List ℕ → Type 0
Stores c seg rx =
    (rx ≡ c.rx)
    ⊎ ((data_off seg ≤ length seg)
        × (rx ≡ c.rx ++ drop (data_off seg) seg)
        × (length rx ≤ c.rx_capacity))

-- From a longer segment, one place further on.
bytes_from-shift :
    (beyond : ℕ → ℕ) (x : ℕ) (seg : List ℕ) (pos n : ℕ)
    → bytes_from beyond (x ∷ seg) (suc pos) n ≡ bytes_from (λ i. beyond (suc i)) seg pos n
unfolding bytes_from
bytes_from-shift beyond x seg pos zero = refl
bytes_from-shift beyond x seg pos (suc n) =
    ap (λ (rest : List ℕ). byte (λ i. beyond (suc i)) seg pos ∷ rest)
      (bytes_from-shift beyond x seg (suc pos) n)

-- A copy that ends inside the segment reads the segment only.
pub bytes_from-inside :
    (beyond : ℕ → ℕ) (seg : List ℕ) (pos n : ℕ)
    → pos + n ≤ length seg
    → bytes_from beyond seg pos n ≡ take n (drop pos seg)
unfolding bytes_from
bytes_from-inside beyond seg pos zero h = refl
bytes_from-inside beyond [] pos (suc n) h = absurd (omega arith)
bytes_from-inside beyond (x ∷ seg) zero (suc n) h =
    ap (λ (rest : List ℕ). x ∷ rest)
      (bytes_from-shift beyond x seg 0 n
        ∙ bytes_from-inside (λ i. beyond (suc i)) seg 0 n (omega arith))
bytes_from-inside beyond (x ∷ seg) (suc pos) (suc n) h =
    bytes_from-shift beyond x seg pos (suc n)
    ∙ bytes_from-inside (λ i. beyond (suc i)) seg pos (suc n) (omega arith)

rx_after-Stores :
    (beyond : ℕ → ℕ) (c : TcpConn) (seg : List ℕ)
    → length seg < 65536
    → get_or seg 12 0 < 256
    → c.rx_capacity ≤ 65000
    → Stores c seg (rx_after beyond c seg)
unfolding rx_after
rx_after-Stores beyond c seg len byte cap =
    elim (Bool-cases (leb (length c.rx + payload_len seg) c.rx_capacity)) [
      | inl fits ↦
          let within = leb→le _ _ fits in
          let inside : data_off seg ≤ length seg = omega (arith, within) in
          let n : payload_len seg ≡ length seg - data_off seg = omega (arith, inside) in
          let whole : bytes_from beyond seg (data_off seg) (payload_len seg)
              ≡ drop (data_off seg) seg =
            bytes_from-inside beyond seg (data_off seg) (payload_len seg) (omega (arith, n, inside))
            ∙ take-all (payload_len seg) (drop (data_off seg) seg)
                (omega (arith, n, length-drop (data_off seg) seg)) in
          inr (
            inside,
            rw (fits, whole) refl,
            rw (fits, whole)
                (omega (
                  arith,
                  within,
                  n,
                  length-append c.rx (drop (data_off seg) seg),
                  length-drop (data_off seg) seg,
                )),
          )
      | inr full ↦ inl (rw full refl)
    ]

receive-rx :
    (beyond : ℕ → ℕ) (c : TcpConn) (seg : List ℕ)
    → ((receive beyond c seg).0.rx ≡ c.rx) ⊎ ((receive beyond c seg).0.rx ≡ rx_after beyond c seg)
unfolding receive receive_data receive_fin receive_rst
receive-rx beyond c seg = ground arith

handle-rx :
    (beyond : ℕ → ℕ) (c : TcpConn) (seg : List ℕ) (s : TcpState)
    → ((handle_by_state beyond c seg s).0.rx ≡ c.rx)
      ⊎ ((handle_by_state beyond c seg s).0.rx ≡ rx_after beyond c seg)
unfolding handle_by_state receive_syn_ack
handle-rx beyond c seg TcpState.closed = inl refl
handle-rx beyond c seg TcpState.syn_sent = ground arith
handle-rx beyond c seg TcpState.established = receive-rx beyond c seg
handle-rx beyond c seg TcpState.fin_wait = receive-rx beyond c seg
handle-rx beyond c seg TcpState.done = inl refl

tcp_handle-rx :
    (beyond : ℕ → ℕ) (c : TcpConn) (seg : List ℕ)
    → ((tcp_handle beyond c seg).0.rx ≡ c.rx)
      ⊎ ((tcp_handle beyond c seg).0.rx ≡ rx_after beyond c seg)
unfolding tcp_handle
tcp_handle-rx beyond c seg = ground (arith, handle-rx beyond c seg c.state)

-- A segment of at most 65535 bytes, however its header is made and whatever stands behind it in the
-- card's buffer, leaves the receive buffer as it was or appends exactly its own bytes from its data
-- offset on, which is then inside the segment, and never overruns the buffer, for a capacity of at most
-- 65000.
pub tcp_handle-Stores :
    (beyond : ℕ → ℕ) (c : TcpConn) (seg : List ℕ)
    → length seg < 65536
    → get_or seg 12 0 < 256
    → c.rx_capacity ≤ 65000
    → Stores c seg (tcp_handle beyond c seg).0.rx
tcp_handle-Stores beyond c seg len byte cap = elim (tcp_handle-rx beyond c seg) [
  | inl same ↦ inl same
  | inr new ↦ rw new (rx_after-Stores beyond c seg len byte cap)
]
