-- ===== src/Shell/Wrapping.antt =====
-- What the lines of a session show of the texts that are pushed.
use flare_os.Prelude.{
  ℕ, zero, suc, ◌-◌, ◌≤◌, ◌≡◌, refl, sym, ap, ◌∙◌, inl, inr, List, [], ◌∷◌, ◌++◌, arith, ◌==◌,
  length, take, drop, drop-append, drop-drop, take-all, subst, length-append, length-take,
  length-drop, take-append-drop, Bool-cases,
}
use mathlib.Core.List.{append-nil, append_assoc}
use flare_os.Shell.Lines.{
  ShellSession, session_push_line_raw, chunk_len, chunks, push_all, session_push_line,
}

abbrev pub concat : List (List ℕ) → List ℕ
concat [] = []
concat (line ∷ lines) = line ++ concat lines

-- Lines that fit a line's buffer and the screen.
abbrev pub Narrow : ℕ → List (List ℕ) → Type 0
Narrow cols [] = Unit {0}
Narrow cols (line ∷ lines) = (length line ≤ 95) × (length line ≤ cols) × Narrow cols lines

-- The wrapped lines are the text, cut into pieces that fit.
pub chunks-concat :
    (cols left : ℕ) (text : List ℕ)
    → 1 ≤ cols
    → length text ≤ left
    → concat (chunks cols left text) ≡ text
unfolding chunks
chunks-concat cols zero [] wide h = refl
chunks-concat cols zero (c ∷ text) wide h = absurd (omega arith)
chunks-concat cols (suc left) [] wide h = refl
chunks-concat cols (suc left) (c ∷ text) wide h =
    let n = chunk_len cols in
    ap (λ (s : List ℕ). take n (c ∷ text) ++ s)
      (chunks-concat cols left (drop n (c ∷ text)) wide (omega (arith, length-drop n (c ∷ text))))
    ∙ take-append-drop n (c ∷ text)

pub chunks-Narrow : (cols left : ℕ) (text : List ℕ) → Narrow cols (chunks cols left text)
unfolding chunks
chunks-Narrow cols zero text = tt
chunks-Narrow cols (suc left) [] = tt
chunks-Narrow cols (suc left) (c ∷ text) =
    let n = chunk_len cols in
    (
      omega (arith, length-take n (c ∷ text)),
      omega (arith, length-take n (c ∷ text)),
      chunks-Narrow cols left (drop n (c ∷ text)),
    )

-- The last 128 entries of a list.
abbrev pub last_128 : List (List ℕ) → List (List ℕ)
last_128 lines = drop (length lines - 128) lines

last_128-room : (lines : List (List ℕ)) → length lines ≤ 128 → last_128 lines ≡ lines
last_128-room lines h = ap (λ (k : ℕ). drop k lines) {y = 0} (omega (arith, h))

length-last_128 : (lines : List (List ℕ)) → length (last_128 lines) ≤ 128
length-last_128 lines = omega (arith, length-drop (length lines - 128) lines)

-- What is cut off first is cut off in the end, too.
last_128-append : (old new : List (List ℕ)) → last_128 (last_128 old ++ new) ≡ last_128 (old ++ new)
last_128-append old new =
    let k = length old - 128 in
    let cut : drop k (old ++ new) ≡ drop k old ++ new = drop-append k old new (omega arith) in
    ap (λ (xs : List (List ℕ)). last_128 xs) (sym cut)
    ∙ drop-drop _ k (old ++ new)
    ∙ ap (λ (n : ℕ). drop n (old ++ new))
        (omega (
          arith,
          ap (λ (xs : List (List ℕ)). length xs) cut,
          length-drop k (old ++ new),
          length-append old new,
        ))

push_raw-lines :
    (s : ShellSession) (line : List ℕ)
    → length s.lines ≤ 128
    → length line ≤ 95
    → (session_push_line_raw s line).lines ≡ last_128 (s.lines ++ (line ∷ []))
unfolding session_push_line_raw
push_raw-lines s line h short = elim (Bool-cases (length s.lines == 128)) [
  | inl full ↦
      rw (full, take-all 95 line short)
        (sym (drop-append 1 s.lines (line ∷ []) (ground arith))
          ∙ ap (λ (n : ℕ). drop n (s.lines ++ (line ∷ []))) {x = 1}
              (ground (arith, full, length-append s.lines (line ∷ []))))
  | inr room ↦
      rw (room, take-all 95 line short)
        (sym (
          last_128-room (s.lines ++ (line ∷ []))
            (ground (arith, length-append s.lines (line ∷ [])))))
]

push_all-lines :
    (cols : ℕ) (s : ShellSession) (lines : List (List ℕ))
    → length s.lines ≤ 128
    → Narrow cols lines
    → (push_all s lines).lines ≡ last_128 (s.lines ++ lines)
unfolding push_all
push_all-lines cols s [] h narrow =
    sym (ap (λ (xs : List (List ℕ)). last_128 xs) (append-nil s.lines) ∙ last_128-room s.lines h)
push_all-lines cols s (line ∷ lines) h narrow =
    let pushed = push_raw-lines s line h narrow.0 in
    let short : length (session_push_line_raw s line).lines ≤ 128 =
      subst (λ (xs : List (List ℕ)). length xs ≤ 128) (sym pushed)
        (length-last_128 (s.lines ++ (line ∷ []))) in
    push_all-lines cols (session_push_line_raw s line) lines short narrow.2
    ∙ ap (λ (xs : List (List ℕ)). last_128 (xs ++ lines)) pushed
    ∙ last_128-append (s.lines ++ (line ∷ [])) lines
    ∙ ap (λ (xs : List (List ℕ)). last_128 xs) (append_assoc s.lines (line ∷ []) lines)

-- The lines of a text on a screen: the text cut into pieces, or an empty line.
abbrev pub wrapped : ℕ → List ℕ → List (List ℕ)
wrapped cols [] = [] ∷ []
wrapped cols (c ∷ text) = chunks cols (length (c ∷ text)) (c ∷ text)

-- On a screen with a column at least, for a session with at most 128 lines: the lines after a text was
-- pushed are the last 128 of the lines before and those of the text. These are one empty line for an
-- empty text, and else pieces of `min 95 cols` characters; put together they are the text, and none is
-- wider than a line's buffer or the screen.
pub session_push_line-lines :
    (cols : ℕ) (s : ShellSession) (text : List ℕ)
    → 1 ≤ cols
    → length s.lines ≤ 128
    → ((session_push_line cols s text).lines ≡ last_128 (s.lines ++ wrapped cols text))
      × (concat (wrapped cols text) ≡ text)
      × Narrow cols (wrapped cols text)
unfolding session_push_line
session_push_line-lines cols s [] wide h =
    (push_raw-lines s [] h (omega arith), refl, (omega arith, omega arith, tt))
session_push_line-lines cols s (c ∷ text) wide h =
    let n = length (c ∷ text) in
    let narrow = chunks-Narrow cols n (c ∷ text) in
    (
      push_all-lines cols s (chunks cols n (c ∷ text)) h narrow,
      chunks-concat cols n (c ∷ text) wide (omega arith),
      narrow,
    )

pub session_push_line-short :
    (cols : ℕ) (s : ShellSession) (text : List ℕ)
    → 1 ≤ cols
    → length s.lines ≤ 128
    → length (session_push_line cols s text).lines ≤ 128
session_push_line-short cols s text wide h =
    subst (λ (xs : List (List ℕ)). length xs ≤ 128)
      (sym (session_push_line-lines cols s text wide h).0)
      (length-last_128 (s.lines ++ wrapped cols text))
