-- ===== src/Net/Duplicates.antt =====
-- What kernel/core/net.c makes of a data segment that comes twice, or that does not fit.
use flare_os.Prelude.{
  ℕ, ◌+◌, ◌%◌, ◌^◌, ◌≤◌, ◌<◌, ◌≡◌, ap, ◌∙◌, refl, false, List, ◌++◌, arith, leb, length,
  length-append,
}
use flare_os.Net.Tcp.{TcpConn, payload_len, rx_after, tcp_handle}
use flare_os.Net.Stream.{data_segment, Fields, payload_len-data, rx_after-data, tcp_handle-data}

-- The handler does not compare a segment's sequence number with the one it expects: a data segment
-- that comes twice is stored twice, where both copies fit.
pub retransmission_is_stored_twice :
    (beyond : ℕ → ℕ) (p c : TcpConn) (checksum : ℕ) (bytes : List ℕ)
    → Fields p c
    → c.src_port < 65536
    → 0 < length bytes
    → length bytes ≤ 1480
    → length c.rx + length bytes + length bytes ≤ c.rx_capacity
    → (tcp_handle beyond
        (tcp_handle beyond c (data_segment p checksum bytes)).0
        (data_segment p checksum bytes)).0.rx
      ≡ c.rx ++ bytes ++ bytes
retransmission_is_stored_twice beyond p c checksum bytes f port some small room =
    let c1 : TcpConn = record c { rx = c.rx ++ bytes; ack = (p.seq + length bytes) % 2 ^ 32 } in
    let first : (tcp_handle beyond c (data_segment p checksum bytes)).0 ≡ c1 =
      tcp_handle-data beyond p c checksum bytes f port some small
      ∙ ap (λ (rx : List ℕ). record c { rx = rx; ack = (p.seq + length bytes) % 2 ^ 32 })
          (rx_after-data beyond p c checksum bytes small (omega (arith, room))) in
    rw first (
      ap (λ (d : TcpConn). d.rx) (tcp_handle-data beyond p c1 checksum bytes f port some small)
      ∙ rx_after-data beyond p c1 checksum bytes small
          (omega (arith, room, length-append c.rx bytes)))

rx_after-full :
    (beyond : ℕ → ℕ) (p c : TcpConn) (checksum : ℕ) (bytes : List ℕ)
    → length bytes ≤ 1480
    → c.rx_capacity < length c.rx + length bytes
    → rx_after beyond c (data_segment p checksum bytes) ≡ c.rx
unfolding rx_after
rx_after-full beyond p c checksum bytes small full =
    let n = payload_len-data p checksum bytes small in
    let over : leb (length c.rx + payload_len (data_segment p checksum bytes)) c.rx_capacity
        ≡ false =
      ground (arith, n) in
    rw over refl

-- A data segment that does not fit the rest of the buffer is dropped, and acknowledged all the same.
pub dropped_is_acknowledged :
    (beyond : ℕ → ℕ) (p c : TcpConn) (checksum : ℕ) (bytes : List ℕ)
    → Fields p c
    → c.src_port < 65536
    → 0 < length bytes
    → length bytes ≤ 1480
    → c.rx_capacity < length c.rx + length bytes
    → (tcp_handle beyond c (data_segment p checksum bytes)).0
      ≡ record c { ack = (p.seq + length bytes) % 2 ^ 32 }
dropped_is_acknowledged beyond p c checksum bytes f port some small full =
    tcp_handle-data beyond p c checksum bytes f port some small
    ∙ ap (λ (rx : List ℕ). record c { rx = rx; ack = (p.seq + length bytes) % 2 ^ 32 })
        (rx_after-full beyond p c checksum bytes small full)
