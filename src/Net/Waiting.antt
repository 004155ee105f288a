-- ===== src/Net/Waiting.antt =====
-- The asynchronous HTTP client of kernel/core/net.c does not wait for ever.
use flare_os.Prelude.{ℕ, ◌-◌, ◌≤◌, ◌<◌, Bool, List, arith}
use flare_os.Net.Poll.{net_poll}
use flare_os.Net.Async.{
  Client, HttpAsyncState, poll_dns, poll_connect, poll_recv, poll_by_state, net_async_http_poll,
  async_send_dns,
}

-- How many deadlines may still pass.
abbrev pub rank_of : HttpAsyncState → ℕ → ℕ
rank_of HttpAsyncState.dns attempt = 6 - attempt
rank_of HttpAsyncState.tcp_connect attempt = 2
rank_of HttpAsyncState.tcp_recv attempt = 1
rank_of _ attempt = 0

abbrev pub rank : Client → ℕ
rank c = rank_of c.state c.attempt

poll_dns-rank :
    (c : Client) (now : ℕ)
    → c.deadline ≤ now
    → c.attempt < 3
    → rank (poll_dns c now).0 < 6 - c.attempt
unfolding poll_dns async_send_dns
poll_dns-rank c now late few = ground arith

poll_connect-rank :
    (c : Client) (now : ℕ) (ok : Bool) → c.deadline ≤ now → rank (poll_connect c now ok).0 < 2
unfolding poll_connect
poll_connect-rank c now ok late = ground arith

poll_recv-rank : (c : Client) (now : ℕ) → c.deadline ≤ now → rank (poll_recv c now).0 < 1
unfolding poll_recv
poll_recv-rank c now late = ground arith

by_state-rank :
    (c : Client) (now : ℕ) (ok : Bool) (s : HttpAsyncState)
    → c.deadline ≤ now
    → c.attempt < 3
    → 0 < rank_of s c.attempt
    → rank (poll_by_state c now ok s).0 < rank_of s c.attempt
unfolding poll_by_state
by_state-rank c now ok HttpAsyncState.idle late few waits = absurd (omega arith)
by_state-rank c now ok HttpAsyncState.dns late few waits = poll_dns-rank c now late few
by_state-rank c now ok HttpAsyncState.tcp_connect late few waits = poll_connect-rank c now ok late
by_state-rank c now ok HttpAsyncState.tcp_recv late few waits = poll_recv-rank c now late
by_state-rank c now ok HttpAsyncState.done late few waits = absurd (omega arith)
by_state-rank c now ok HttpAsyncState.failed late few waits = absurd (omega arith)

-- A poll of a client that waits, at its deadline or later and in one of its three attempts, lowers
-- the number of deadlines that may still pass, which is at most 6, whatever packets have come.
pub net_async_http_poll-rank :
    (beyond : ℕ → ℕ) (c : Client) (frames : List (List ℕ)) (now : ℕ) (ok : Bool)
    → c.deadline ≤ now
    → c.attempt < 3
    → 0 < rank c
    → rank (net_async_http_poll beyond c frames now ok).1 < rank c
unfolding net_async_http_poll
net_async_http_poll-rank beyond c frames now ok late few waits =
    let net = (net_poll beyond c.net frames).0 in
    ground (arith, by_state-rank (record c { net = net }) now ok c.state late few waits)
