-- ===== src/Net/Dns.antt =====
-- `dns_handle` and the question of `async_send_dns` and `dns_resolve` in kernel/core/net.c.
-- The handler reads a few bytes behind a short packet: `beyond` gives what stands there.
use flare_os.Prelude.{
  refl, ℕ, zero, suc, ◌+◌, ◌*◌, ◌%◌, ◌≤◌, ◌≡◌, bit_and, Bool, true, false, not, ◌&&◌, List, [], ◌∷◌,
  ◌++◌, Option, none, some, arith, ltb, leb, ◌==◌, if◌then◌else◌, length, drop, length-drop, ap,
  get_elem?, Bool-cases, inl, inr,
}

-- `g_dns_result` and `g_dns_done`.
pub record Dns : Type 0 where
  pub result : ℕ
  pub done : Bool

module _ (beyond : ℕ → ℕ) (packet : List ℕ) where
  abbrev pub byte : ℕ → ℕ
  byte pos = elim (get_elem? packet pos) [ none ↦ beyond pos | some b ↦ b ]

  abbrev pub u16_at : ℕ → ℕ
  u16_at pos = byte pos * 256 + byte (pos + 1)

  abbrev inside : ℕ → Bool
  inside pos = ltb pos (length packet) && not (byte pos == 0)

  abbrev is_pointer : ℕ → Bool
  is_pointer b = bit_and b 0xc0 == 0xc0

  -- The loop over the labels of an answer's name; every round moves on by at least one byte, so as
  -- many rounds as the packet has bytes are enough: `skip_labels-ends`.
  unfoldable pub skip_labels : ℕ → ℕ → ℕ
  skip_labels zero pos = pos
  skip_labels (suc left) pos =
      let rest = skip_labels left (pos + 1 + byte pos) in if inside pos then rest else pos

  -- The loop over the question's labels, which a pointer ends.
  unfoldable pub skip_question : ℕ → ℕ → ℕ
  skip_question zero pos = pos
  skip_question (suc left) pos =
      let rest = skip_question left (pos + 1 + byte pos) in
      if not (inside pos) then pos else if is_pointer (byte pos) then pos + 2 else rest

  unfoldable pub skip_name : ℕ → ℕ
  skip_name pos = if is_pointer (byte pos) then pos + 2 else skip_labels (length packet) pos + 1

  -- The loop over the answers that are left; the address of the first one that has one.
  unfoldable pub find_address : ℕ → ℕ → Option ℕ
  find_address zero pos = none
  find_address (suc left) pos =
      let p = skip_name pos in
      let rdlen = u16_at (p + 8) in
      let rest = find_address left (p + 10 + rdlen) in
      if ltb (length packet) (pos + 12)
      then none
      else if u16_at p == 1 && (rdlen == 4 && leb (p + 12) (length packet))
      then some
          (byte (p + 10) + byte (p + 11) * 256 + byte (p + 12) * 65536 + byte (p + 13) * 16777216)
      else rest

  unfoldable pub dns_handle : Dns → Dns
  dns_handle d =
      let answers = u16_at 6 in
      let q = skip_question (length packet) 12 in
      let start = (if ltb q (length packet) && byte q == 0 then q + 1 else q) + 4 in
      if ltb (length packet) 12
      then d
      else if answers == 0
      then record d { done = true }
      else elim (find_address answers start) [
        | some ip ↦ record { result = ip; done = true }
        | none ↦ record d { done = true }
      ]

  -- The fuel is enough: the loop stops behind the packet or at a zero byte.
  pub skip_labels-ends :
      (left pos : ℕ) → length packet ≤ pos + left → inside (skip_labels left pos) ≡ false
  unfolding skip_labels
  skip_labels-ends zero pos h = ground arith
  skip_labels-ends (suc left) pos h = elim (Bool-cases (inside pos)) [
    | inl in_name ↦ rw in_name (skip_labels-ends left (pos + 1 + byte pos) (omega arith))
    | inr ends ↦ rw ends ends
  ]

  -- Likewise for the question: one more round changes nothing.
  pub skip_question-enough :
      (left pos : ℕ)
      → length packet ≤ pos + left
      → skip_question (suc left) pos ≡ skip_question left pos
  unfolding skip_question
  skip_question-enough zero pos h = ground arith
  skip_question-enough (suc left) pos h =
      ground (arith, skip_question-enough left (pos + 1 + byte pos))

-- A host name up to its first dot, and from it on.
unfoldable pub label_end : List ℕ → List ℕ × List ℕ
label_end [] = ([], [])
label_end (c ∷ s) =
    let rest = label_end s in if c == b'.' then ([], c ∷ s) else (c ∷ rest.0, rest.1)

-- The loop over the labels of a host name. Each round takes a character at least, so as many rounds
-- as the name has characters are enough.
unfoldable pub encode_labels : ℕ → List ℕ → List ℕ
encode_labels zero s = []
encode_labels (suc left) [] = []
encode_labels (suc left) (c ∷ s) =
    let (label, rest) = label_end (c ∷ s) in
    length label % 256 ∷ label ++ encode_labels left (drop 1 rest)

label_end-shorter : (s : List ℕ) → length (label_end s).1 ≤ length s
unfolding label_end
label_end-shorter [] = omega arith
label_end-shorter (c ∷ s) = ground (arith, label_end-shorter s)

pub encode_labels-enough :
    (left : ℕ) (s : List ℕ) → length s ≤ left → encode_labels (suc left) s ≡ encode_labels left s
unfolding encode_labels
encode_labels-enough zero [] h = refl
encode_labels-enough (suc left) [] h = refl
encode_labels-enough zero (c ∷ s) h = absurd (omega arith)
encode_labels-enough (suc left) (c ∷ s) h =
    let rest = (label_end (c ∷ s)).1 in
    ap (λ (t : List ℕ). length (label_end (c ∷ s)).0 % 256 ∷ (label_end (c ∷ s)).0 ++ t)
      (encode_labels-enough left (drop 1 rest)
        (omega (arith, length-drop 1 rest, label_end-shorter (c ∷ s))))

-- The query that is sent to port 53.
unfoldable pub dns_query : List ℕ → List ℕ
dns_query hostname =
    0x12 ∷ 0x34 ∷ 1 ∷ 0 ∷ 0 ∷ 1 ∷ 0 ∷ 0 ∷ 0 ∷ 0 ∷ 0 ∷ 0 ∷ []
    ++ encode_labels (length hostname) hostname
    ++ 0 ∷ 0 ∷ 1 ∷ 0 ∷ 1 ∷ []
