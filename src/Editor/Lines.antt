-- ===== src/Editor/Lines.antt =====
-- The line buffers of kernel/core/editor.c and its loops over them.
use flare_os.Prelude.{
  ℕ, zero, suc, ◌+◌, ◌-◌, Bool, ◌&&◌, ◌||◌, List, [], ◌∷◌, ◌++◌, ltb, leb, ◌==◌, if◌then◌else◌,
  length, drop, replicate, get_or, set,
}

abbrev pub empty_line : List ℕ
empty_line = replicate 256 0

-- The C string in a buffer.
unfoldable pub text : List ℕ → List ℕ
text [] = []
text (c ∷ line) = if c == 0 then [] else c ∷ text line

abbrev pub strlen : List ℕ → ℕ
strlen line = length (text line)

-- `strcpy` of a text into a buffer: `CString.Copying.strcpy_lem`.
abbrev pub strcpy : List ℕ → List ℕ → List ℕ
strcpy line new = new ++ (0 ∷ drop (suc (length new)) line)

-- `for (int i = len; i >= cx; --i) line[i + 1] = line[i];` with `left` rounds left.
unfoldable pub shift_right : List ℕ → ℕ → ℕ → List ℕ
shift_right line cx zero = line
shift_right line cx (suc left) =
    shift_right (set line (suc (cx + left)) (get_or line (cx + left) 0)) cx left

unfoldable pub insert_byte : List ℕ → ℕ → ℕ → List ℕ
insert_byte line cx ch = set (shift_right line cx (strlen line + 1 - cx)) cx ch

-- `for (int i = n; line[i]; ++i) line[i] = line[i + 1];` from the place that it starts at.
unfoldable pub delete_from : List ℕ → List ℕ
delete_from [] = []
delete_from (c ∷ line) = if c == 0 then c ∷ line else get_or line 0 0 ∷ delete_from line

unfoldable pub delete_at : ℕ → List ℕ → List ℕ
delete_at n [] = []
delete_at zero (c ∷ line) = delete_from (c ∷ line)
delete_at (suc n) (c ∷ line) = c ∷ delete_at n line

-- `for (int i = first + left; i > first; --i) strcpy(g_lines[i], g_lines[i - 1]);`
unfoldable pub shift_lines_down : List (List ℕ) → ℕ → ℕ → List (List ℕ)
shift_lines_down lines first zero = lines
shift_lines_down lines first (suc left) =
    let i = first + left in
    shift_lines_down
      (set lines (suc i)
        (strcpy (get_or lines (suc i) empty_line) (text (get_or lines i empty_line))))
      first left

-- `for (int i = first; i < first + left; ++i) strcpy(g_lines[i], g_lines[i + 1]);`
unfoldable pub shift_lines_up : List (List ℕ) → ℕ → ℕ → List (List ℕ)
shift_lines_up lines first zero = lines
shift_lines_up lines first (suc left) =
    shift_lines_up
      (set lines first
        (strcpy (get_or lines first empty_line) (text (get_or lines (suc first) empty_line))))
      (suc first) left

-- `ch >= ' '` of a signed char.
abbrev pub keeps_char : ℕ → Bool
keeps_char ch = leb b' ' ch && ltb ch 128

-- The inner loop of `editor_start`: the text of one line, and the data behind it.
unfoldable pub take_line : ℕ → List ℕ → List ℕ × List ℕ
take_line col [] = ([], [])
take_line col (ch ∷ bytes) =
    let (line, rest) = take_line (if keeps_char ch then col + 1 else col) bytes in
    if ch == 0xa || leb 255 col
    then ([], ch ∷ bytes)
    else (if keeps_char ch then ch ∷ line else line, rest)

unfoldable pub skip_newline : List ℕ → List ℕ
skip_newline [] = []
skip_newline (ch ∷ bytes) = if ch == 0xa then bytes else ch ∷ bytes

-- The outer loop of `editor_start`, with `left` line buffers left.
unfoldable pub load_lines : ℕ → List ℕ → List (List ℕ)
load_lines zero bytes = []
load_lines (suc left) [] = []
load_lines (suc left) (ch ∷ bytes) =
    let (line, rest) = take_line 0 (ch ∷ bytes) in line ∷ load_lines left (skip_newline rest)

unfoldable pub put_texts : List (List ℕ) → List (List ℕ) → List (List ℕ)
put_texts [] lines = lines
put_texts (new ∷ texts) [] = []
put_texts (new ∷ texts) (line ∷ lines) = strcpy line new ∷ put_texts texts lines

-- The loop of `editor_save` over the lines, with `pos` bytes in the buffer of 16384.
unfoldable pub saved_bytes : ℕ → List (List ℕ) → List ℕ
saved_bytes pos [] = []
saved_bytes pos (line ∷ lines) =
    let rest = saved_bytes (pos + strlen line + 1) lines in
    if ltb 16384 (pos + strlen line + 1) then [] else text line ++ (0xa ∷ rest)
