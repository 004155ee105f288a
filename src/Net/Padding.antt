-- ===== src/Net/Padding.antt =====
-- What kernel/core/net.c makes of the zeros behind a short frame.
use flare_os.Prelude.{
  refl, ℕ, ◌+◌, ◌-◌, ◌≤◌, ◌<◌, ◌≡◌, ap, true, List, ◌++◌, some, arith, length, length-append,
  length-replicate, replicate, ◌%◌, ◌^◌,
}
use flare_os.Net.Tcp.{TcpConn, tcp_send}
use flare_os.Net.Poll.{Net}
use flare_os.Net.Link.{Link}
use flare_os.Net.Stream.{InStep, carry, chunk-carried, received, filled}

-- A chunk of 1 to 5 bytes, sent by one end of an established connection: the card fills the frame up to
-- 60 bytes, and the receiver stores the zeros behind the chunk, where 6 bytes fit its buffer, and
-- acknowledges 6 bytes.
pub short_chunk_grows :
    (beyond : ℕ → ℕ) (link : Link) (sum : List ℕ → ℕ) (id : ℕ) (p : TcpConn) (net : Net)
    (chunk : List ℕ)
    → InStep p net.tcp
    → 0 < length chunk
    → length chunk < 6
    → length net.tcp.rx + 6 ≤ net.tcp.rx_capacity
    → (net' : Net) × (carry beyond link sum id p net (tcp_send p chunk true).2 ≡ some (true, net'))
      × (net'.tcp.rx ≡ net.tcp.rx ++ (chunk ++ replicate (6 - length chunk) 0))
      × (net'.tcp.ack ≡ (p.seq + 6) % 2 ^ 32)
short_chunk_grows beyond link sum id p net chunk s some_ short room =
    let m = length-append chunk (replicate (6 - length chunk) 0) in
    let z : length {A = ℕ} (replicate (6 - length chunk) 0) ≡ 6 - length chunk =
      length-replicate (6 - length chunk) 0 in
    let six : length (filled chunk) ≡ 6 = omega (arith, m, z) in
    (
      received beyond link sum p net (filled chunk),
      chunk-carried beyond link sum id p net chunk s some_ (omega arith) (omega (arith, six, room)),
      refl,
      ap (λ (n : ℕ). (p.seq + n) % 2 ^ 32) six,
    )
