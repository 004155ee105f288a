-- ===== src/Editor/Text.antt =====
-- What inserting and deleting a byte of kernel/core/editor.c does to the text of a line.
use flare_os.Prelude.{
  ℕ, zero, suc, ◌+◌, ◌-◌, ◌≤◌, ◌<◌, ◌≡◌, refl, sym, ap, ap₂, ◌∙◌, ◌≢◌, List, [], ◌∷◌, ◌++◌, arith,
  length, take, drop, get_or, set, length-set,
}
use native.Mathlib.Decide.{ℕ_discrete}
use flare_os.Editor.Lines.{text, strlen, shift_right, insert_byte, delete_from, delete_at}

pub length-shift_right :
    (line : List ℕ) (cx left : ℕ) → length (shift_right line cx left) ≡ length line
unfolding shift_right
length-shift_right line cx zero = refl
length-shift_right line cx (suc left) =
    length-shift_right (set line (suc (cx + left)) (get_or line (cx + left) 0)) cx left
    ∙ length-set line (suc (cx + left)) (get_or line (cx + left) 0)

-- The shift leaves the bytes before the cursor alone.
shift_right-cons :
    (x : ℕ) (line : List ℕ) (cx left : ℕ)
    → shift_right (x ∷ line) (suc cx) left ≡ x ∷ shift_right line cx left
unfolding shift_right
shift_right-cons x line cx zero = refl
shift_right-cons x line cx (suc left) =
    let e : suc cx + left ≡ suc (cx + left) = omega arith in
    rw e (shift_right-cons x (set line (suc (cx + left)) (get_or line (cx + left) 0)) cx left)

take-set : (line : List ℕ) (n i v : ℕ) → n ≤ i → take n (set line i v) ≡ take n line
take-set line zero i v h = refl
take-set [] (suc n) i v h = refl
take-set (x ∷ line) (suc n) zero v h = absurd (omega arith)
take-set (x ∷ line) (suc n) (suc i) v h = ap (◌∷◌ x) (take-set line n i v (omega arith))

drop-set :
    (line : List ℕ) (n v : ℕ) → n < length line → drop n (set line n v) ≡ v ∷ drop (suc n) line
drop-set [] n v h = absurd (omega arith)
drop-set (x ∷ line) zero v h = refl
drop-set (x ∷ line) (suc n) v h = drop-set line n v (omega arith)

take-snoc :
    (line rest : List ℕ) (n : ℕ)
    → n < length line
    → take n line ++ (get_or line n 0 ∷ rest) ≡ take (suc n) line ++ rest
take-snoc [] rest n h = absurd (omega arith)
take-snoc (x ∷ line) rest zero h = refl
take-snoc (x ∷ line) rest (suc n) h = ap (◌∷◌ x) (take-snoc line rest n (omega arith))

-- From the line's start, `left` bytes move up by one and the first byte stays.
shift_right-start :
    (x : ℕ) (line : List ℕ) (left : ℕ)
    → left ≤ length line
    → shift_right (x ∷ line) 0 left ≡ x ∷ (take left (x ∷ line) ++ drop left line)
unfolding shift_right
shift_right-start x line zero h = refl
shift_right-start x line (suc left) h =
    let e : 0 + left ≡ left = omega arith in
    let v = get_or (x ∷ line) left 0 in
    rw e (
      shift_right-start x (set line left v) left (omega (arith, length-set line left v))
      ∙ ap (◌∷◌ x) (
          ap₂ ◌++◌ (take-set (x ∷ line) left (suc left) v (omega arith))
            (drop-set line left v (omega arith))
          ∙ take-snoc (x ∷ line) (drop (suc left) line) left (omega arith)))

insert_byte-cons :
    (x : ℕ) (line : List ℕ) (cx ch : ℕ)
    → x ≢ 0
    → insert_byte (x ∷ line) (suc cx) ch ≡ x ∷ insert_byte line cx ch
unfolding insert_byte text
insert_byte-cons x line cx ch nz =
    let longer : strlen (x ∷ line) ≡ suc (strlen line) = ground arith in
    let rounds : strlen (x ∷ line) + 1 - suc cx ≡ strlen line + 1 - cx = omega (arith, longer) in
    ap (λ (n : ℕ). set (shift_right (x ∷ line) (suc cx) n) (suc cx) ch) rounds
    ∙ ap (λ (l : List ℕ). set l (suc cx) ch) (shift_right-cons x line cx (strlen line + 1 - cx))

text-take_suc :
    (line rest : List ℕ) (n : ℕ)
    → strlen line < length line
    → strlen line < n
    → text (take n line ++ rest) ≡ text line
unfolding text
text-take_suc line rest zero h e = absurd (omega arith)
text-take_suc [] rest (suc n) h e = absurd (omega arith)
text-take_suc (c ∷ line) rest (suc n) h e = ground (arith, text-take_suc line rest n)

text-take :
    (line rest : List ℕ)
    → strlen line < length line
    → text (take (strlen line + 1) line ++ rest) ≡ text line
text-take line rest h = text-take_suc line rest (strlen line + 1) h (omega arith)

insert_byte-start :
    (c : ℕ) (line : List ℕ) (ch : ℕ)
    → strlen (c ∷ line) + 1 ≤ length line
    → insert_byte (c ∷ line) 0 ch
      ≡ ch ∷ (take (strlen (c ∷ line) + 1) (c ∷ line) ++ drop (strlen (c ∷ line) + 1) line)
unfolding insert_byte
insert_byte-start c line ch h =
    let rounds : strlen (c ∷ line) + 1 - 0 ≡ strlen (c ∷ line) + 1 = omega arith in
    ap (λ (n : ℕ). set (shift_right (c ∷ line) 0 n) 0 ch) rounds
    ∙ ap (λ (l : List ℕ). set l 0 ch) (shift_right-start c line (strlen (c ∷ line) + 1) h)

text-cons : (c : ℕ) (line : List ℕ) → c ≢ 0 → text (c ∷ line) ≡ c ∷ text line
unfolding text
text-cons c line nz = ground arith

-- Inserting a character at a cursor inside the text, or at its end, puts it there and keeps the
-- rest, when the buffer has room for one more.
pub text-insert_byte :
    (line : List ℕ) (cx ch : ℕ)
    → ch ≢ 0
    → cx ≤ strlen line
    → strlen line + 1 < length line
    → text (insert_byte line cx ch) ≡ take cx (text line) ++ ch ∷ drop cx (text line)
unfolding text
text-insert_byte [] cx ch nz inside room = absurd (omega arith)
text-insert_byte (c ∷ line) zero ch nz inside room =
    ap text (insert_byte-start c line ch (omega arith))
    ∙ text-cons ch (take (strlen (c ∷ line) + 1) (c ∷ line) ++ drop (strlen (c ∷ line) + 1) line) nz
    ∙ ap (◌∷◌ ch) (text-take (c ∷ line) (drop (strlen (c ∷ line) + 1) line) (omega arith))
text-insert_byte (c ∷ line) (suc cx) ch nz inside room = elim (ℕ_discrete c 0) [
  | yes ended ↦ absurd (ground arith)
  | no c_nz ↦
      let one_more : text (c ∷ line) ≡ c ∷ text line = text-cons c line c_nz in
      ap text (insert_byte-cons c line cx ch c_nz)
      ∙ text-cons c (insert_byte line cx ch) c_nz
      ∙ ap (◌∷◌ c) (text-insert_byte line cx ch nz (ground arith) (ground arith))
      ∙ ap (λ (t : List ℕ). take (suc cx) t ++ ch ∷ drop (suc cx) t) (sym one_more)
]

text-delete_from :
    (c : ℕ) (line : List ℕ)
    → c ≢ 0
    → strlen line < length line
    → text (delete_from (c ∷ line)) ≡ text line
unfolding delete_from text
text-delete_from c [] nz ended = absurd (omega arith)
text-delete_from c (x ∷ line) nz ended = ground (arith, text-delete_from x line)

-- Deleting at a place inside the text takes that character out.
pub text-delete_at :
    (line : List ℕ) (n : ℕ)
    → n < strlen line
    → strlen line < length line
    → text (delete_at n line) ≡ take n (text line) ++ drop (suc n) (text line)
unfolding delete_at text
text-delete_at [] n inside ended = absurd (omega arith)
text-delete_at (c ∷ line) zero inside ended = ground (arith, text-delete_from c line)
text-delete_at (c ∷ line) (suc n) inside ended = ground (arith, text-delete_at line n)
