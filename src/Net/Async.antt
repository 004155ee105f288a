-- ===== src/Net/Async.antt =====
-- The asynchronous HTTP client of kernel/core/net.c. `g_ticks` is read once for a call, and the
-- frames that `net_poll` finds are an argument.
use flare_os.Prelude.{
  ℕ, ◌+◌, ◌%◌, ◌^◌, Bool, true, false, not, ◌&&◌, ◌||◌, List, [], ◌∷◌, ◌++◌, map, Option, none,
  some, ltb, leb, ◌==◌, if◌then◌else◌, length, take, drop, get_or,
}
use flare_os.Net.Tcp.{TcpState, Sent, tcp_syn, tcp_send_flags, tcp_init_connect, tcp_close}
use flare_os.Net.Dns.{dns_query}
use flare_os.Net.Url.{Target, parse_url}
use flare_os.Net.Poll.{Net, net_poll}

pub data HttpAsyncState : Type 0 where
  idle : HttpAsyncState
  dns : HttpAsyncState
  tcp_connect : HttpAsyncState
  tcp_recv : HttpAsyncState
  done : HttpAsyncState
  failed : HttpAsyncState

-- `out` is what has been stored in `g_async_out_buf`.
pub record Client : Type 0 where
  pub state : HttpAsyncState
  pub net : Net
  pub target : Target
  pub out : List ℕ
  pub out_capacity : ℕ
  pub deadline : ℕ
  pub attempt : ℕ
  pub ip : ℕ

-- What the client hands to `net_send_udp` and `tcp_send_flags`.
pub data Request : Type 0 where
  query : List ℕ → Request
  segment : Sent → Request

-- The value of `net_async_http_poll`: 0, 1 and -1.
pub data Progress : Type 0 where
  pending : Progress
  finished : Progress
  error : Progress

abbrev http_get : Target → List ℕ
http_get t =
    b'G' ∷ b'E' ∷ b'T' ∷ b' ' ∷ []
    ++ t.path
    ++ b' ' ∷ b'H' ∷ b'T' ∷ b'T' ∷ b'P' ∷ b'/' ∷ b'1' ∷ b'.' ∷ b'0' ∷ 13 ∷ 10 ∷ b'H' ∷ b'o' ∷ b's'
      ∷ b't' ∷ b':' ∷ b' ' ∷ []
    ++ t.hostname
    ++ 13 ∷ 10 ∷ b'C' ∷ b'o' ∷ b'n' ∷ b'n' ∷ b'e' ∷ b'c' ∷ b't' ∷ b'i' ∷ b'o' ∷ b'n' ∷ b':' ∷ b' '
      ∷ b'c' ∷ b'l' ∷ b'o' ∷ b's' ∷ b'e' ∷ 13 ∷ 10 ∷ 13 ∷ 10 ∷ []

-- A request that does not fit its buffer of 512 bytes is not sent; the loop stops at the first part
-- that does not fit, and the rest only makes the request longer.
unfoldable pub async_send_request : Net → Target → Bool → Net × List Request
async_send_request net t ok =
    let bytes = http_get t in
    let sent = record net.tcp { seq = (net.tcp.seq + length bytes) % 2 ^ 32 } in
    if leb 512 (length bytes) then (net, []) else (
      if ok then record net { tcp = sent } else net,
      Request.segment (tcp_send_flags net.tcp 0x18 bytes) ∷ [],
    )

-- The place behind the first blank line, or the start.
unfoldable pub body_from : List ℕ → Option (List ℕ)
body_from [] = none
body_from (c ∷ s) =
    let rest = body_from s in
    if c == 13 && (get_or s 0 0 == 10 && (get_or s 1 0 == 13 && get_or s 2 0 == 10))
    then some (drop 3 s)
    else rest

unfoldable pub http_body : List ℕ → ℕ → List ℕ
http_body rx capacity = take capacity (elim (body_from rx) [ none ↦ rx | some body ↦ body ])

unfoldable pub close_conn : Client → Client × List Request
close_conn c =
    let (conn, sent) = tcp_close c.net.tcp in
    (record c { net = record c.net { tcp = conn } }, map Request.segment sent)

unfoldable pub net_async_http_abort : Client → Client × List Request
net_async_http_abort c =
    let (closed, sent) = close_conn c in
    elim c.state [
      | HttpAsyncState.idle ↦ (c, [])
      | HttpAsyncState.tcp_connect ↦ (record closed { state = HttpAsyncState.idle }, sent)
      | HttpAsyncState.tcp_recv ↦ (record closed { state = HttpAsyncState.idle }, sent)
      | _ ↦ (record c { state = HttpAsyncState.idle }, [])
    ]

unfoldable pub async_send_dns : Client → Client × List Request
async_send_dns c = (
  record c { net = record c.net { dns = record { result = 0; done = false } } },
  Request.query (dns_query c.target.hostname) ∷ [],
)

unfoldable pub net_async_http_start : Client → List ℕ → ℕ → ℕ → Bool × Client × List Request
net_async_http_start c url capacity now =
    let (c1, sent1) = net_async_http_abort c in
    let (ok, target) = parse_url c1.target url in
    let (c2, sent2) = async_send_dns (record c1 { target = target }) in
    if not c1.net.lease.net_ready
    then (false, c1, sent1)
    else if not ok
    then (false, record c1 { target = target }, sent1)
    else (
      true,
      record c2 {
        state = HttpAsyncState.dns;
        out_capacity = capacity;
        attempt = 0;
        ip = 0;
        deadline = now + 150;
      },
      sent1 ++ sent2,
    )

abbrev fail : Client → Client
fail c = record c { state = HttpAsyncState.failed }

unfoldable pub poll_dns : Client → ℕ → Client × List Request
poll_dns c now =
    let conn = tcp_init_connect c.net.dns.result 80 in
    let again = record c { attempt = c.attempt + 1 } in
    let (c1, sent) = async_send_dns (record again { deadline = now + 150 }) in
    if c.net.dns.done && c.net.dns.result == 0
    then (fail c, [])
    else if c.net.dns.done
    then (
      record c {
        ip = c.net.dns.result;
        net = record c.net { tcp = conn };
        state = HttpAsyncState.tcp_connect;
        deadline = now + 300;
      },
      Request.segment (tcp_send_flags conn tcp_syn []) ∷ [],
    )
    else if ltb now c.deadline
    then (c, [])
    else if ltb (c.attempt + 1) 3
    then (c1, sent)
    else (fail again, [])

abbrev is_done : TcpState → Bool
is_done TcpState.done = true
is_done _ = false

-- `ok` is whether the request goes out.
unfoldable pub poll_connect : Client → ℕ → Bool → Client × List Request
poll_connect c now ok =
    let (net, sent) = async_send_request c.net c.target ok in
    elim c.net.tcp.state [
      | TcpState.established ↦
          (record c { net = net; state = HttpAsyncState.tcp_recv; deadline = now + 600 }, sent)
      | s ↦ if is_done s || leb c.deadline now then (fail c, []) else (c, [])
    ]

unfoldable pub poll_recv : Client → ℕ → Client × List Request
poll_recv c now =
    let (closed, sent) = close_conn c in
    let body = http_body c.net.tcp.rx c.out_capacity in
    if c.net.tcp.rx_done
    then (record closed { out = body; state = HttpAsyncState.done }, sent)
    else if ltb now c.deadline
    then (c, [])
    else (fail closed, sent)

abbrev progress : HttpAsyncState → Progress
progress HttpAsyncState.done = Progress.finished
progress HttpAsyncState.failed = Progress.error
progress _ = Progress.pending

-- The `switch` over the state after the packets are handled.
unfoldable pub poll_by_state : Client → ℕ → Bool → HttpAsyncState → Client × List Request
poll_by_state c now ok HttpAsyncState.dns = poll_dns c now
poll_by_state c now ok HttpAsyncState.tcp_connect = poll_connect c now ok
poll_by_state c now ok HttpAsyncState.tcp_recv = poll_recv c now
poll_by_state c now ok _ = (c, [])

-- The answers of the handlers to packets are those of `net_poll`.
unfoldable pub net_async_http_poll :
    (ℕ → ℕ) → Client → List (List ℕ) → ℕ → Bool → Progress × Client × List Request
net_async_http_poll beyond c frames now ok =
    let (net, _) = net_poll beyond c.net frames in
    let (c1, sent) = poll_by_state (record c { net = net }) now ok c.state in
    elim c.state [
      | HttpAsyncState.idle ↦ (Progress.error, c, [])
      | HttpAsyncState.done ↦ (Progress.finished, record c { state = HttpAsyncState.idle }, [])
      | HttpAsyncState.failed ↦ (Progress.error, record c { state = HttpAsyncState.idle }, [])
      | _ ↦ (progress c1.state, c1, sent)
    ]
