-- ===== src/Net/Url.antt =====
-- `parse_url` of kernel/core/net.c. Strings are their characters, without the NUL.
use flare_os.Prelude.{
  ℕ, suc, ◌<◌, ◌≡◌, refl, ap, inl, inr, Bool, true, false, not, ◌&&◌, ◌||◌, List, [], ◌∷◌, ◌++◌,
  arith, leb, ◌==◌, if◌then◌else◌, length, drop, Bool-cases,
}

-- `strncmp(url, "http://", 7) == 0`, for a prefix without a NUL: `CString.strncmp`.
abbrev pub starts_with : List ℕ → List ℕ → Bool
starts_with [] url = true
starts_with (c ∷ prefix) [] = false
starts_with (c ∷ prefix) (d ∷ url) = c == d && starts_with prefix url

abbrev pub http : List ℕ
http = b'h' ∷ b't' ∷ b't' ∷ b'p' ∷ b':' ∷ b'/' ∷ b'/' ∷ []

-- The characters before the first slash, and those from it on.
unfoldable pub split_host : List ℕ → List ℕ × List ℕ
split_host [] = ([], [])
split_host (c ∷ s) =
    let rest = split_host s in if c == b'/' then ([], c ∷ s) else (c ∷ rest.0, rest.1)

-- `g_http_hostname` and `g_http_path`.
pub record Target : Type 0 where
  pub hostname : List ℕ
  pub path : List ℕ

abbrev path_or_root : List ℕ → List ℕ
path_or_root [] = b'/' ∷ []
path_or_root (c ∷ s) = c ∷ s

-- The path's length is tested when the host's name is stored already.
unfoldable pub parse_url : Target → List ℕ → Bool × Target
parse_url t url =
    let (host, path) = split_host (drop 7 url) in
    if not (starts_with http url)
    then (false, t)
    else if length host == 0 || leb 64 (length host)
    then (false, t)
    else if leb 128 (length path)
    then (false, record t { hostname = host })
    else (true, record { hostname = host; path = path_or_root path })

abbrev pub NoSlash : List ℕ → Type 0
NoSlash [] = Unit {0}
NoSlash (c ∷ s) = ((c == b'/') ≡ false) × NoSlash s

split-host :
    (host path : List ℕ) → NoSlash host → split_host (host ++ b'/' ∷ path) ≡ (host, b'/' ∷ path)
unfolding split_host
split-host [] path n = refl
split-host (c ∷ host) path n = rw (n.0, split-host host path n.1) refl

split-host_only : (host : List ℕ) → NoSlash host → split_host host ≡ (host, [])
unfolding split_host
split-host_only [] n = refl
split-host_only (c ∷ host) n = rw (n.0, split-host_only host n.1) refl

-- A host of 1 to 63 characters with a path that is shorter than 128 is parsed into its parts, and a
-- host alone gets the path "/".
pub parse_url-http :
    (t : Target) (host path : List ℕ)
    → NoSlash host
    → 0 < length host
    → length host < 64
    → suc (length path) < 128
    → (parse_url t (http ++ host ++ b'/' ∷ path)
        ≡ (true, record { hostname = host; path = b'/' ∷ path }))
      × (parse_url t (http ++ host) ≡ (true, record { hostname = host; path = b'/' ∷ [] }))
unfolding parse_url
parse_url-http t host path n some short fits =
    let h : length host == 0 || leb 64 (length host) ≡ false = ground arith in
    let p : leb 128 (suc (length path)) ≡ false = ground arith in
    (rw (split-host host path n, h, p) refl, rw (split-host_only host n, h) refl)

split_host-append : (s : List ℕ) → (split_host s).0 ++ (split_host s).1 ≡ s
unfolding split_host
split_host-append [] = refl
split_host-append (c ∷ s) = elim (Bool-cases (c == b'/')) [
  | inl slash ↦ rw slash refl
  | inr other ↦ rw other (ap (◌∷◌ c) (split_host-append s))
]

-- The two buffers, of 64 and 128 bytes, hold strings that fit them.
abbrev pub Fits : Target → Type 0
Fits t = (length t.hostname < 64) × (length t.path < 128)

path_or_root-short : (path : List ℕ) → length path < 128 → length (path_or_root path) < 128
path_or_root-short [] h = omega arith
path_or_root-short (c ∷ s) h = h

-- Whatever the URL is, accepted or not, both buffers keep strings that fit them.
pub parse_url-Fits : (t : Target) (url : List ℕ) → Fits t → Fits (parse_url t url).1
unfolding parse_url
parse_url-Fits t url f = ground (arith, f, path_or_root-short (split_host (drop 7 url)).1)
