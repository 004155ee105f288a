-- ===== src/Editor/Saving.antt =====
-- What kernel/core/editor.c saves and loads again.
use flare_os.Prelude.{
  ℕ, zero, suc, ◌+◌, ◌≤◌, ◌<◌, ◌≡◌, refl, ap, ◌∙◌, List, [], ◌∷◌, ◌++◌, map, arith, length,
  length-append,
}
use flare_os.Editor.Lines.{text, strlen, take_line, skip_newline, load_lines, saved_bytes}

-- The characters that a line is loaded with: visible ones and spaces.
abbrev pub Plain : List ℕ → Type 0
Plain [] = Unit {0}
Plain (c ∷ s) = (b' ' ≤ c) × (c < 128) × Plain s

-- Lines of plain text, each short enough for its buffer, that fit the save buffer from `pos` on.
abbrev pub Fits : ℕ → List (List ℕ) → Type 0
Fits pos [] = Unit {0}
Fits pos (line ∷ lines) =
    Plain (text line)
    × (strlen line ≤ 255)
    × (pos + strlen line + 1 ≤ 16384)
    × Fits (pos + strlen line + 1) lines

take_line-text :
    (col : ℕ) (s rest : List ℕ)
    → Plain s
    → col + length s ≤ 255
    → take_line col (s ++ 0xa ∷ rest) ≡ (s, 0xa ∷ rest)
unfolding take_line
take_line-text col [] rest p h = refl
take_line-text col (c ∷ s) rest p h =
    ground (arith, take_line-text (col + 1) s rest p.2 (omega arith))

load_lines-line :
    (left : ℕ) (s rest : List ℕ)
    → Plain s
    → length s ≤ 255
    → load_lines (suc left) (s ++ 0xa ∷ rest) ≡ s ∷ load_lines left rest
unfolding load_lines skip_newline
load_lines-line left [] rest p h = rw (take_line-text 0 [] rest p (omega arith)) refl
load_lines-line left (c ∷ s) rest p h = rw (take_line-text 0 (c ∷ s) rest p (omega arith)) refl

saved_bytes-fits :
    (pos : ℕ) (line : List ℕ) (lines : List (List ℕ))
    → pos + strlen line + 1 ≤ 16384
    → saved_bytes pos (line ∷ lines)
      ≡ text line ++ (0xa ∷ saved_bytes (pos + strlen line + 1) lines)
unfolding saved_bytes
saved_bytes-fits pos line lines h = ground arith

load_lines-empty : (left pos : ℕ) → load_lines left (saved_bytes pos []) ≡ []
unfolding load_lines saved_bytes
load_lines-empty zero pos = refl
load_lines-empty (suc left) pos = refl

load-saved :
    (left pos : ℕ) (lines : List (List ℕ))
    → length lines ≤ left
    → Fits pos lines
    → load_lines left (saved_bytes pos lines) ≡ map text lines
load-saved left pos [] n f = load_lines-empty left pos
load-saved zero pos (line ∷ lines) n f = absurd (omega arith)
load-saved (suc left) pos (line ∷ lines) n f =
    ap (load_lines (suc left)) (saved_bytes-fits pos line lines f.2)
    ∙ load_lines-line left (text line) (saved_bytes (pos + strlen line + 1) lines) f.0 f.1
    ∙ ap (◌∷◌ (text line)) (load-saved left (pos + strlen line + 1) lines (omega arith) f.3)

-- A file of at most 500 lines of plain text that fits the save buffer is loaded with the texts that
-- it was saved with.
pub load_lines-saved_bytes :
    (lines : List (List ℕ))
    → length lines ≤ 500
    → Fits 0 lines
    → load_lines 500 (saved_bytes 0 lines) ≡ map text lines
load_lines-saved_bytes lines n f = load-saved 500 0 lines n f

-- The save loop stays inside its buffer, for any lines.
pub length-saved_bytes :
    (pos : ℕ) (lines : List (List ℕ)) → pos ≤ 16384 → pos + length (saved_bytes pos lines) ≤ 16384
unfolding saved_bytes
length-saved_bytes pos [] h = omega arith
length-saved_bytes pos (line ∷ lines) h = ground (
  arith,
  length-append (text line) (0xa ∷ saved_bytes (pos + strlen line + 1) lines),
  length-saved_bytes (pos + strlen line + 1) lines,
)
