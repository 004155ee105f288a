-- ===== src/Net/Arp.antt =====
-- The ARP cache of kernel/core/net.c.
use flare_os.Prelude.{
  ℕ, ◌+◌, ◌*◌, ◌/◌, ◌%◌, ◌^◌, ◌<◌, ◌≡◌, refl, ◌⊎◌, inl, inr, Bool, true, false, not, ◌&&◌, ◌||◌,
  List, [], ◌∷◌, ◌++◌, Option, none, some, arith, ltb, ◌==◌, if◌then◌else◌, length, take, drop,
  get_or,
}

pub record ArpEntry : Type 0 where
  pub ip : ℕ
  pub mac : List ℕ
  pub valid : Bool

-- What `g_our_ip`, `g_our_mac` and `g_arp_cache` hold.
pub record ArpState : Type 0 where
  pub our_ip : ℕ
  pub our_mac : List ℕ
  pub cache : List ArpEntry

-- The loop of `arp_handle` over the cache.
unfoldable pub arp_store : List ArpEntry → ℕ → List ℕ → List ArpEntry
arp_store [] ip mac = []
arp_store (e ∷ cache) ip mac =
    let rest = arp_store cache ip mac in
    if not e.valid || e.ip == ip
    then record { ip = ip; mac = mac; valid = true } ∷ cache
    else e ∷ rest

-- The loop of `arp_resolve` over the cache.
unfoldable pub arp_find : List ArpEntry → ℕ → Option (List ℕ)
arp_find [] ip = none
arp_find (e ∷ cache) ip =
    let rest = arp_find cache ip in if e.valid && e.ip == ip then some e.mac else rest

-- A `u32` as it lies in memory.
abbrev pub u32_at : List ℕ → ℕ → ℕ
u32_at bytes i =
    get_or bytes i 0
    + get_or bytes (i + 1) 0 * 256
    + get_or bytes (i + 2) 0 * 65536
    + get_or bytes (i + 3) 0 * 16777216

abbrev pub u32_bytes : ℕ → List ℕ
u32_bytes n = n % 256 ∷ n / 256 % 256 ∷ n / 65536 % 256 ∷ n / 16777216 % 256 ∷ []

abbrev oper : List ℕ → ℕ
oper packet = get_or packet 6 0 * 256 + get_or packet 7 0

abbrev pub sha : List ℕ → List ℕ
sha packet = take 6 (drop 8 packet)

-- The packet that answers a request, for `net_send_eth`.
unfoldable pub arp_reply : ArpState → List ℕ → List ℕ
arp_reply s packet =
    0 ∷ 1 ∷ 8 ∷ 0 ∷ 6 ∷ 4 ∷ 0 ∷ 2 ∷ []
    ++ s.our_mac
    ++ u32_bytes s.our_ip
    ++ sha packet
    ++ take 4 (drop 14 packet)

-- The packet that `arp_send_request` broadcasts.
unfoldable pub arp_request : ArpState → ℕ → List ℕ
arp_request s target_ip =
    0 ∷ 1 ∷ 8 ∷ 0 ∷ 6 ∷ 4 ∷ 0 ∷ 1 ∷ []
    ++ s.our_mac
    ++ u32_bytes s.our_ip
    ++ (0 ∷ 0 ∷ 0 ∷ 0 ∷ 0 ∷ 0 ∷ [])
    ++ u32_bytes target_ip

-- With the reply, when there is one.
unfoldable pub arp_handle : ArpState → List ℕ → ArpState × Option (List ℕ)
arp_handle s packet =
    let asked = oper packet == 1 && u32_at packet 24 == s.our_ip in
    let reply = if asked then some (arp_reply s packet) else none in
    let cache =
      if oper packet == 2 then arp_store s.cache (u32_at packet 14) (sha packet) else s.cache in
    if ltb (length packet) 28 then (s, none) else (record s { cache = cache }, reply)

-- The cache has a free entry, or one for the address.
abbrev pub HasRoom : List ArpEntry → ℕ → Type 0
HasRoom [] ip = ⊥
HasRoom (e ∷ cache) ip = ((not e.valid || e.ip == ip) ≡ true) ⊎ HasRoom cache ip

find-store_self :
    (cache : List ArpEntry) (ip : ℕ) (mac : List ℕ)
    → HasRoom cache ip
    → arp_find (arp_store cache ip mac) ip ≡ some mac
unfolding arp_find arp_store
find-store_self [] ip mac r = absurd r
find-store_self (e ∷ cache) ip mac (inl here) = ground arith
find-store_self (e ∷ cache) ip mac (inr later) = ground (arith, find-store_self cache ip mac later)

pub six :
    (m : List ℕ)
    → length m ≡ 6
    → (a : ℕ) × (b : ℕ) × (c : ℕ) × (d : ℕ) × (e : ℕ) × (f : ℕ) × (m ≡ a ∷ b ∷ c ∷ d ∷ e ∷ f ∷ [])
six (a ∷ b ∷ c ∷ d ∷ e ∷ f ∷ []) h = (a, b, c, d, e, f, refl)
six [] h = absurd (omega arith)
six (a ∷ []) h = absurd (omega arith)
six (a ∷ b ∷ []) h = absurd (omega arith)
six (a ∷ b ∷ c ∷ []) h = absurd (omega arith)
six (a ∷ b ∷ c ∷ d ∷ []) h = absurd (omega arith)
six (a ∷ b ∷ c ∷ d ∷ e ∷ []) h = absurd (omega arith)
six (a ∷ b ∷ c ∷ d ∷ e ∷ f ∷ g ∷ m) h = absurd (omega arith)

-- A request for a host's own address is answered, and the asking host, whose cache has room,
-- resolves the address to the answering host's hardware address from then on.
pub request-reply :
    (ip_a ip_b : ℕ) (mac_a mac_b : List ℕ) (cache_a cache_b : List ArpEntry)
    → ip_a < 2 ^ 32
    → ip_b < 2 ^ 32
    → length mac_a ≡ 6
    → length mac_b ≡ 6
    → HasRoom cache_a ip_b
    → let a : ArpState = record { our_ip = ip_a; our_mac = mac_a; cache = cache_a } in
      let b : ArpState = record { our_ip = ip_b; our_mac = mac_b; cache = cache_b } in
      ((arp_handle b (arp_request a ip_b)).1 ≡ some (arp_reply b (arp_request a ip_b)))
      × (arp_find (arp_handle a (arp_reply b (arp_request a ip_b))).0.cache ip_b ≡ some mac_b)
unfolding arp_handle arp_request arp_reply
request-reply ip_a ip_b mac_a mac_b cache_a cache_b small_a small_b len_a len_b room =
    let (a0, a1, a2, a3, a4, a5, ea) = six mac_a len_a in
    let (b0, b1, b2, b3, b4, b5, eb) = six mac_b len_b in
    let ip : u32_at (u32_bytes ip_b) 0 ≡ ip_b = omega (arith, small_b) in
    let same : (ip_b == ip_b) ≡ true = ground arith in
    rw (ea, eb)
      (
        rw (ip, same) refl,
        rw ip (find-store_self cache_a ip_b (b0 ∷ b1 ∷ b2 ∷ b3 ∷ b4 ∷ b5 ∷ []) room),
      )

abbrev pub IsFull : List ArpEntry → ℕ → Type 0
IsFull [] ip = Unit {0}
IsFull (e ∷ cache) ip = ((not e.valid || e.ip == ip) ≡ false) × IsFull cache ip

store-full :
    (cache : List ArpEntry) (ip : ℕ) (mac : List ℕ)
    → IsFull cache ip
    → (arp_store cache ip mac ≡ cache) × (arp_find cache ip ≡ none)
unfolding arp_store arp_find
store-full [] ip mac f = (refl, refl)
store-full (e ∷ cache) ip mac f = ground (arith, f.0, store-full cache ip mac f.1)

-- When the cache is full of other addresses, nothing makes room: a reply is forgotten, and its
-- sender's address does not resolve.
pub full_cache_forgets :
    (s : ArpState) (packet : List ℕ)
    → IsFull s.cache (u32_at packet 14)
    → ((arp_handle s packet).0.cache ≡ s.cache)
      × (arp_find (arp_handle s packet).0.cache (u32_at packet 14) ≡ none)
unfolding arp_handle
full_cache_forgets s packet f =
    let kept = store-full s.cache (u32_at packet 14) (sha packet) f in ground (arith, kept)
