-- ===== src/CString/Copying.antt =====
-- What the copying routines of kernel/core/string.c leave in the destination.
use flare_os.Prelude.{
  ℕ, zero, suc, ◌-◌, ◌≤◌, ◌<◌, min, ◌≡◌, refl, ◌≢◌, List, [], ◌∷◌, ◌++◌, none, some, arith, length,
  take, drop, replicate,
}
use flare_os.CString.{memcpy, memset, strlen, strcpy, strncpy, strcat, strncat, append_up_to}

-- The text holds no NUL, so `text ++ 0 ∷ rest` is a C string with this text.
abbrev pub NoNul : List ℕ → Type 0
NoNul [] = Unit {0}
NoNul (c ∷ s) = (c ≢ 0) × NoNul s

-- `memcpy` puts the first `count` bytes of the source over the destination's and keeps the rest,
-- when both objects hold `count` bytes.
pub memcpy_lem :
    (d s : List ℕ) (count : ℕ)
    → count ≤ length d
    → count ≤ length s
    → memcpy d s count ≡ some (take count s ++ drop count d)
unfolding memcpy
memcpy_lem d s zero hd hs = refl
memcpy_lem [] s (suc count) hd hs = absurd (omega arith)
memcpy_lem (x ∷ d) [] (suc count) hd hs = absurd (omega arith)
memcpy_lem (x ∷ d) (y ∷ s) (suc count) hd hs =
    ground (arith, memcpy_lem d s count (omega arith) (omega arith))

pub memset_lem :
    (d : List ℕ) (value count : ℕ)
    → count ≤ length d
    → value < 256
    → memset d value count ≡ some (replicate count value ++ drop count d)
unfolding memset
memset_lem d value zero h v = refl
memset_lem [] value (suc count) h v = absurd (omega arith)
memset_lem (x ∷ d) value (suc count) h v = ground (arith, memset_lem d value count (omega arith) v)

-- `strlen` of a C string is the length of its text, whatever follows the NUL.
pub strlen_lem : (s r : List ℕ) → NoNul s → strlen (s ++ 0 ∷ r) ≡ some (length s)
unfolding strlen
strlen_lem [] r n = refl
strlen_lem (c ∷ s) r n = ground (arith, strlen_lem s r n.1)

-- `strcpy` writes the text and its NUL over the destination and keeps what stands behind, when the
-- destination has room for the NUL.
pub strcpy_lem :
    (d s r : List ℕ)
    → NoNul s
    → length s < length d
    → strcpy d (s ++ 0 ∷ r) ≡ some (s ++ 0 ∷ drop (suc (length s)) d)
unfolding strcpy
strcpy_lem [] s r n h = absurd (omega arith)
strcpy_lem (x ∷ d) [] r n h = refl
strcpy_lem (x ∷ d) (y ∷ s) r n h = ground (arith, strcpy_lem d s r n.1 (omega arith))

-- Without that room `strcpy` writes past the end of the destination.
pub strcpy_overflow :
    (d s r : List ℕ) → NoNul s → length d ≤ length s → strcpy d (s ++ 0 ∷ r) ≡ none
unfolding strcpy
strcpy_overflow [] s r n h = refl
strcpy_overflow (x ∷ d) [] r n h = absurd (omega arith)
strcpy_overflow (x ∷ d) (y ∷ s) r n h = ground (arith, strcpy_overflow d s r n.1 (omega arith))

-- `strncpy` writes exactly `count` bytes: the text cut to `count`, then NULs.
pub strncpy_lem :
    (d s r : List ℕ) (count : ℕ)
    → NoNul s
    → count ≤ length d
    → strncpy d (s ++ 0 ∷ r) count
      ≡ some (take count s ++ replicate (count - length s) 0 ++ drop count d)
unfolding strncpy
strncpy_lem d s r zero n h = let none_left : 0 - length s ≡ 0 = omega arith in rw none_left refl
strncpy_lem [] s r (suc count) n h = absurd (omega arith)
strncpy_lem (x ∷ d) [] r (suc count) n h =
    let all_left : suc count - 0 ≡ suc count = omega arith in
    rw all_left (memset_lem (x ∷ d) 0 (suc count) h (omega arith))
strncpy_lem (x ∷ d) (y ∷ s) r (suc count) n h =
    ground (arith, strncpy_lem d s r count n.1 (omega arith))

-- `strcat` appends the second text to the first, when the destination has room for both and a NUL.
pub strcat_lem :
    (a d s r : List ℕ)
    → NoNul a
    → NoNul s
    → length s ≤ length d
    → strcat (a ++ 0 ∷ d) (s ++ 0 ∷ r) ≡ some (a ++ s ++ 0 ∷ drop (length s) d)
unfolding strcat
strcat_lem [] d s r na ns h = strcpy_lem (0 ∷ d) s r ns (omega arith)
strcat_lem (c ∷ a) d s r na ns h = ground (arith, strcat_lem a d s r na.1 ns h)

append_up_to_lem :
    (d s r : List ℕ) (count : ℕ)
    → NoNul s
    → min count (length s) < length d
    → append_up_to d (s ++ 0 ∷ r) count
      ≡ some (take count s ++ 0 ∷ drop (suc (min count (length s))) d)
unfolding append_up_to
append_up_to_lem [] s r count n h = absurd (omega arith)
append_up_to_lem (x ∷ d) s r zero n h = let e : min 0 (length s) ≡ 0 = omega arith in rw e refl
append_up_to_lem (x ∷ d) [] r (suc count) n h =
    let e : min (suc count) 0 ≡ 0 = omega arith in rw e refl
append_up_to_lem (x ∷ d) (y ∷ s) r (suc count) n h =
    let e : min (suc count) (suc (length s)) ≡ suc (min count (length s)) = omega arith in
    rw e (ground (arith, append_up_to_lem d s r count n.1 (omega arith)))

-- `strncat` appends at most `count` bytes of the second text, and always a NUL.
pub strncat_lem :
    (a d s r : List ℕ) (count : ℕ)
    → NoNul a
    → NoNul s
    → min count (length s) ≤ length d
    → strncat (a ++ 0 ∷ d) (s ++ 0 ∷ r) count
      ≡ some (a ++ take count s ++ 0 ∷ drop (min count (length s)) d)
unfolding strncat
strncat_lem [] d s r count na ns h = append_up_to_lem (0 ∷ d) s r count ns (omega arith)
strncat_lem (c ∷ a) d s r count na ns h = ground (arith, strncat_lem a d s r count na.1 ns h)
