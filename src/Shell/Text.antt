-- ===== src/Shell/Text.antt =====
-- The text builders of kernel/core/shell.c. A buffer of `size` bytes is the text in it, without its
-- NUL, which `append_char` keeps inside the buffer.
use flare_os.Prelude.{
  ℕ, zero, suc, ◌+◌, ◌-◌, ◌/◌, ◌%◌, ◌<◌, ◌≡◌, sym, ◌∙◌, false, List, [], ◌∷◌, ◌++◌, arith, leb,
  ◌==◌, if◌then◌else◌, length, length-append,
}
use mathlib.Core.List.{append-nil, append_assoc}
use Prim.Native.Char.{code}
use Prim.Native.String.{String}

-- The bytes of a string literal of the source, all ASCII.
abbrev pub bytes : String → List ℕ
bytes String.[] = []
bytes (String.◌∷◌ c s) = code c ∷ bytes s

unfoldable pub append_char : ℕ → List ℕ → ℕ → List ℕ
append_char size buffer ch = if leb size (length buffer + 1) then buffer else buffer ++ (ch ∷ [])

unfoldable pub append_text : ℕ → List ℕ → List ℕ → List ℕ
append_text size buffer [] = buffer
append_text size buffer (ch ∷ text) = append_text size (append_char size buffer ch) text

unfoldable pub append_spaces : ℕ → List ℕ → ℕ → List ℕ
append_spaces size buffer zero = buffer
append_spaces size buffer (suc count) = append_spaces size (append_char size buffer b' ') count

-- `width` characters of the text are left; what is missing is filled up with spaces.
unfoldable pub append_padded_text : ℕ → List ℕ → List ℕ → ℕ → List ℕ
append_padded_text size buffer text zero = buffer
append_padded_text size buffer [] (suc width) =
    append_padded_text size (append_char size buffer b' ') [] width
append_padded_text size buffer (ch ∷ text) (suc width) =
    append_padded_text size (append_char size buffer ch) text width

-- The decimal digits of a u64, the highest first. The loop fills at most 24 places, and a u64 has at
-- most 20 digits: `Decimal.decimal-value`.
unfoldable pub digits_from : ℕ → ℕ → List ℕ → List ℕ
digits_from zero value digits = digits
digits_from (suc left) value digits =
    let d = b'0' + value % 10 in
    let rest = digits_from left (value / 10) (d ∷ digits) in
    if value / 10 == 0 then d ∷ digits else rest

unfoldable pub decimal : ℕ → List ℕ
decimal value = digits_from 24 value []

unfoldable pub append_u64_dec : ℕ → List ℕ → ℕ → List ℕ
append_u64_dec size buffer value = append_text size buffer (decimal value)

-- The padding is negative, and adds nothing, where the number is wider than `width`.
unfoldable pub append_u64_dec_padded : ℕ → List ℕ → ℕ → ℕ → List ℕ
append_u64_dec_padded size buffer value width =
    append_text size (append_spaces size buffer (width - length (decimal value))) (decimal value)

pub length-append_char :
    (size : ℕ) (buffer : List ℕ) (ch : ℕ)
    → length buffer < size
    → length (append_char size buffer ch) < size
unfolding append_char
length-append_char size buffer ch h = ground (arith, length-append buffer (ch ∷ []))

-- No builder overruns its buffer.
pub length-append_text :
    (size : ℕ) (buffer text : List ℕ)
    → length buffer < size
    → length (append_text size buffer text) < size
unfolding append_text
length-append_text size buffer [] h = h
length-append_text size buffer (ch ∷ text) h =
    length-append_text size (append_char size buffer ch) text (length-append_char size buffer ch h)

-- A text that fits is appended whole.
pub append_text-fits :
    (size : ℕ) (buffer text : List ℕ)
    → length buffer + length text < size
    → append_text size buffer text ≡ buffer ++ text
unfolding append_text append_char
append_text-fits size buffer [] h = sym (append-nil buffer)
append_text-fits size buffer (ch ∷ text) h =
    let room : leb size (length buffer + 1) ≡ false = ground arith in
    rw room (
      append_text-fits size (buffer ++ (ch ∷ [])) text
        (omega (arith, length-append buffer (ch ∷ [])))
      ∙ append_assoc buffer (ch ∷ []) text)
