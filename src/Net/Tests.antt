-- ===== src/Net/Tests.antt =====
-- Two ends of a connection, and the theorems at them.
use flare_os.Prelude.{
  ℕ, ◌+◌, ◌≡◌, refl, take, drop, ◌<◌, arith, true, false, List, [], ◌∷◌, ◌++◌, length, replicate,
  some, inl,
}
use flare_os.Net.Tcp.{TcpConn, TcpState, tcp_segment, tcp_handle, tcp_send}
use flare_os.Net.Receiving.{Stores, tcp_handle-Stores}
use flare_os.Net.Poll.{Net}
use flare_os.Net.Link.{Link}
use flare_os.Net.Duplicates.{retransmission_is_stored_twice}
use flare_os.Net.Padding.{short_chunk_grows}
use flare_os.Net.Stream.{carry, data_segment, deliver, concat, deliver-concat}
use flare_os.Net.Arp.{
  ArpEntry, ArpState, arp_find, arp_handle, arp_reply, arp_request, request-reply,
}
use flare_os.Net.Dhcp.{dhcp_request, dhcp_request-cut}
use flare_os.Net.Async.{Client, HttpAsyncState, net_async_http_poll}
use flare_os.Net.Waiting.{rank, net_async_http_poll-rank}
use flare_os.Net.Frames.{ip_checksum, net_send_ip, net_send_ip-checks}
use flare_os.Net.Url.{Target, http, parse_url, parse_url-http}

abbrev client : TcpConn
client = record {
  state = TcpState.established;
  dst_ip = 0x0a000002;
  dst_port = 80;
  src_port = 49152;
  seq = 0x1000;
  ack = 7;
  rx = 1 ∷ [];
  rx_capacity = 8192;
  rx_done = false;
}

abbrev server : TcpConn
server = record {
  state = TcpState.established;
  dst_ip = 0x0a00000f;
  dst_port = 49152;
  src_port = 80;
  seq = 7;
  ack = 0x1000;
  rx = [];
  rx_capacity = 8192;
  rx_done = false;
}

abbrev full : TcpConn
full = record client { rx_capacity = 2 }

abbrev bytes : List ℕ
bytes = 2 ∷ 3 ∷ []

tcp_handle-Stores_example :
    Stores client
      (data_segment server 0 bytes)
      (tcp_handle (λ _. 0xff) client (data_segment server 0 bytes)).0.rx
unfolding tcp_segment
tcp_handle-Stores_example =
    tcp_handle-Stores (λ _. 0xff) client (data_segment server 0 bytes) (omega arith) (omega arith)
      (omega arith)

retransmission_is_stored_twice_example :
    (tcp_handle
      (λ _. 0xff)
      (tcp_handle (λ _. 0xff) client (data_segment server 0 bytes)).0
      (data_segment server 0 bytes)).0.rx
    ≡ client.rx ++ bytes ++ bytes
retransmission_is_stored_twice_example =
    retransmission_is_stored_twice (λ _. 0xff) server client 0 bytes (refl, omega arith, refl)
      (omega arith) (omega arith) (omega arith) (omega arith)

abbrev free : ArpEntry
free = record { ip = 0; mac = replicate 6 0; valid = false }

abbrev taken : ArpEntry
taken = record { ip = 9; mac = replicate 6 9; valid = true }

abbrev host : ℕ → List ArpEntry → ArpState
host ip cache = record { our_ip = ip; our_mac = 1 ∷ 2 ∷ 3 ∷ 4 ∷ 5 ∷ 6 ∷ []; cache = cache }

-- A reply from the address 7.
abbrev reply : List ℕ
reply = 0 ∷ 1 ∷ 8 ∷ 0 ∷ 6 ∷ 4 ∷ 0 ∷ 2 ∷ 6 ∷ 6 ∷ 6 ∷ 6 ∷ 6 ∷ 6 ∷ 7 ∷ 0 ∷ 0 ∷ 0 ∷ replicate 10 0

request-reply_example :
    ((arp_handle (host 3 []) (arp_request (host 5 (free ∷ [])) 3)).1
      ≡ some (arp_reply (host 3 []) (arp_request (host 5 (free ∷ [])) 3)))
    × (arp_find
          (arp_handle
            (host 5 (free ∷ []))
            (arp_reply (host 3 []) (arp_request (host 5 (free ∷ [])) 3))).0.cache
          3
        ≡ some (1 ∷ 2 ∷ 3 ∷ 4 ∷ 5 ∷ 6 ∷ []))
request-reply_example =
    request-reply 5 3 (1 ∷ 2 ∷ 3 ∷ 4 ∷ 5 ∷ 6 ∷ []) (1 ∷ 2 ∷ 3 ∷ 4 ∷ 5 ∷ 6 ∷ []) (free ∷ []) []
      (omega arith) (omega arith) refl refl (inl refl)

abbrev target : Target
target = record { hostname = []; path = [] }

parse_url-http_example :
    (parse_url target (http ++ (b'a' ∷ []) ++ b'/' ∷ [])
      ≡ (true, record { hostname = b'a' ∷ []; path = b'/' ∷ [] }))
    × (parse_url target (http ++ b'a' ∷ [])
        ≡ (true, record { hostname = b'a' ∷ []; path = b'/' ∷ [] }))
parse_url-http_example =
    parse_url-http target (b'a' ∷ []) [] (refl, tt) (omega arith) (omega arith) (omega arith)

abbrev offer : List ℕ
offer = 2 ∷ 1 ∷ 6 ∷ 0 ∷ replicate 12 0 ++ 10 ∷ 0 ∷ 2 ∷ 15 ∷ replicate 220 0

dhcp_request-cut_example :
    (length (dhcp_request (λ _. 0) offer (1 ∷ 2 ∷ 3 ∷ 4 ∷ 5 ∷ 6 ∷ [])) ≡ 248)
    × (drop 240 (dhcp_request (λ _. 0) offer (1 ∷ 2 ∷ 3 ∷ 4 ∷ 5 ∷ 6 ∷ []))
        ≡ 53 ∷ 1 ∷ 3 ∷ 50 ∷ 4 ∷ 10 ∷ 0 ∷ 2 ∷ [])
dhcp_request-cut_example = dhcp_request-cut (λ _. 0) offer (1 ∷ 2 ∷ 3 ∷ 4 ∷ 5 ∷ 6 ∷ []) refl

-- A client that waits for the answer to its query since tick 10.
abbrev asking : Client
asking = record {
  state = HttpAsyncState.dns;
  net = record {
    mac = replicate 6 1;
    lease = record {
      our_ip = 10 ∷ 0 ∷ 2 ∷ 15 ∷ [];
      gateway_ip = 10 ∷ 0 ∷ 2 ∷ 2 ∷ [];
      dns_ip = 10 ∷ 0 ∷ 2 ∷ 3 ∷ [];
      subnet_mask = 255 ∷ 255 ∷ 255 ∷ 0 ∷ [];
      net_ready = true;
    };
    cache = replicate 8 free;
    dns = record { result = 0; done = false };
    tcp = client;
  };
  target = record { hostname = b'a' ∷ []; path = b'/' ∷ [] };
  out = [];
  out_capacity = 100;
  deadline = 160;
  attempt = 0;
  ip = 0;
}

-- The client's machine polls what the server sends: twice 8 bytes.
abbrev receiver : Net
receiver = asking.net

abbrev link : Link
link = record { our_mac = λ i. i; dst_mac = λ i. 6 + i; our_ip = 0x0202000a; dst_ip = 0x0f02000a }

abbrev chunks : List (List ℕ)
chunks = (replicate 8 5) ∷ (replicate 8 9) ∷ []

short_chunk_grows_example :
    (net' : Net) × (carry (λ _. 0xff) link (λ _. 0) 1 server receiver (tcp_send server bytes true).2
      ≡ some (true, net'))
    × (net'.tcp.rx ≡ client.rx ++ (bytes ++ replicate 4 0))
    × (net'.tcp.ack ≡ 13)
short_chunk_grows_example =
    short_chunk_grows (λ _. 0xff) link (λ _. 0) 1 server receiver bytes
      ((refl, omega arith, refl), omega arith, refl, refl) (omega arith) (omega arith) (omega arith)

deliver-concat_example :
    (p' : TcpConn) × (net' : Net) × (deliver (λ _. 0xff) link (λ _. 0) 1 server receiver chunks
      ≡ some (p', net'))
    × (net'.tcp.rx ≡ client.rx ++ concat chunks)
    × (net'.tcp.ack ≡ p'.seq)
deliver-concat_example =
    deliver-concat (λ _. 0xff) link (λ _. 0) 1 server receiver chunks
      ((refl, omega arith, refl), omega arith, refl, refl)
      (omega arith, omega arith, (omega arith, omega arith, tt)) (omega arith)

net_async_http_poll-rank_example :
    rank (net_async_http_poll (λ _. 0) asking [] 200 true).1 < rank asking
net_async_http_poll-rank_example =
    net_async_http_poll-rank (λ _. 0) asking [] 200 true (omega arith) (omega arith) (omega arith)

net_send_ip-checks_example :
    ip_checksum (take 20 (net_send_ip 1 17 0x0f02000a 0x0202000a bytes)) ≡ 0
net_send_ip-checks_example = net_send_ip-checks 1 17 0x0f02000a 0x0202000a bytes (omega arith)
