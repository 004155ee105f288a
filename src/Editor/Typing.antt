-- ===== src/Editor/Typing.antt =====
-- Where kernel/core/editor.c leaves the cursor after a key, and what becomes of the next character.
use flare_os.Prelude.{
  ℕ, zero, suc, ◌+◌, ◌-◌, ◌≤◌, ◌<◌, ◌≡◌, refl, ap, ◌∙◌, ◌≢◌, Bool, true, false, ◌&&◌, List, [], ◌∷◌,
  map, arith, leb, get_or, set,
}
use flare_os.Key
use flare_os.BlockDevice.{BlockDevice}
use flare_os.FlareFs.State.{Fs}
use flare_os.Editor.Lines.{empty_line, text, strlen, shift_right, insert_byte}
use flare_os.Editor.{
  Editor, Screen, current, join_next, editor_backspace, editor_delete, editor_newline, clamp,
  edit_key, editor_insert_char, editor_keyboard_event,
}

-- A byte that is stored behind the NUL does not change the text.
text-set_behind : (line : List ℕ) (n v : ℕ) → strlen line < n → text (set line n v) ≡ text line
unfolding text
text-set_behind [] n v h = refl
text-set_behind (c ∷ line) zero v h = absurd (omega arith)
text-set_behind (c ∷ line) (suc n) v h = ground (arith, text-set_behind line n v)

text-insert_behind :
    (line : List ℕ) (cx ch : ℕ) → strlen line < cx → text (insert_byte line cx ch) ≡ text line
unfolding insert_byte shift_right
text-insert_behind line cx ch h =
    let e : strlen line + 1 - cx ≡ 0 = omega arith in rw e (text-set_behind line cx ch h)

map-set :
    (lines : List (List ℕ)) (i : ℕ) (line : List ℕ)
    → text line ≡ text (get_or lines i empty_line)
    → map text (set lines i line) ≡ map text lines
map-set [] i line h = refl
map-set (l ∷ lines) zero line h = ap (λ t. t ∷ map text lines) h
map-set (l ∷ lines) (suc i) line h = ap (◌∷◌ (text l)) (map-set lines i line h)

-- Every key that edits leaves the cursor at column 2 or behind, also on a shorter line.
pub clamp-cx : (s : Screen) (e : Editor) → 2 ≤ (clamp s e).cx
unfolding clamp
clamp-cx s e = ground arith

insert_behind :
    (e : Editor) (ch : ℕ)
    → strlen (current e) < e.cx
    → map text (editor_insert_char e ch).lines ≡ map text e.lines
unfolding editor_insert_char
insert_behind e ch h = ground (
  arith,
  map-set e.lines e.cy (insert_byte (current e) e.cx ch) (text-insert_behind (current e) e.cx ch h),
)

is_printable : ℕ → Bool
is_printable key = leb b' ' key && leb key b'~'

edit_key-printable :
    (s : Screen) (e : Editor) (key : ℕ)
    → leb b' ' key && leb key b'~' ≡ true
    → edit_key s e key ≡ editor_insert_char e key
unfolding edit_key
edit_key-printable s e key p = ground arith

clamp-lines : (s : Screen) (e : Editor) → (clamp s e).lines ≡ e.lines
unfolding clamp
clamp-lines s e = refl

abbrev Running : Editor → Type 0
Running e = (e.active ≡ true) × (e.quit ≡ false)

join_next-Running : (e : Editor) (to : ℕ) → Running e → Running (join_next e to)
unfolding join_next
join_next-Running e to r = r

insert-Running : (e : Editor) (ch : ℕ) → Running e → Running (editor_insert_char e ch)
unfolding editor_insert_char
insert-Running e ch r = ground arith

newline-Running : (e : Editor) → Running e → Running (editor_newline e)
unfolding editor_newline
newline-Running e r = ground arith

backspace-Running : (e : Editor) → Running e → Running (editor_backspace e)
unfolding editor_backspace
backspace-Running e r = ground arith

delete-Running : (e : Editor) → Running e → Running (editor_delete e)
unfolding editor_delete
delete-Running e r = ground arith

edit_key-Running : (s : Screen) (e : Editor) (key : ℕ) → Running e → Running (edit_key s e key)
unfolding edit_key
edit_key-Running s e key r = ground (
  arith,
  insert-Running e key r,
  insert-Running e b' ' r,
  insert-Running (editor_insert_char e b' ') b' ',
  newline-Running e r,
  backspace-Running e r,
  delete-Running e r,
)

clamp-Running : (s : Screen) (e : Editor) → Running e → Running (clamp s e)
unfolding clamp
clamp-Running s e r = r

-- Keys other than Ctrl+Q, Ctrl+S and escape.
abbrev pub Edits : ℕ → Type 0
Edits key = (key ≢ 0x271) × (key ≢ 0x273) × (key ≢ Key.esc)

module _ {D : Type 0} (dev : BlockDevice D) where
  event-Edits :
      (s : Screen) (e : Editor) (fs : Fs) (d : D) (key : ℕ)
      → Running e
      → Edits key
      → (editor_keyboard_event dev s e fs d key true).0 ≡ clamp s (edit_key s e key)
  unfolding editor_keyboard_event
  event-Edits s e fs d key r edits = ground arith

  -- After any key that edits, a character that is typed on a line shorter than two characters is
  -- stored behind the line's NUL: the text of every line stays as it was.
  pub typing_is_lost :
      (s : Screen) (e : Editor) (fs : Fs) (d : D) (key ch : ℕ)
      → e.active ≡ true
      → e.quit ≡ false
      → Edits key
      → b' ' ≤ ch
      → ch ≤ b'~'
      → strlen (current (editor_keyboard_event dev s e fs d key true).0) < 2
      → map text
          (editor_keyboard_event dev s
            (editor_keyboard_event dev s e fs d key true).0
            fs
            d
            ch
            true).0.lines
        ≡ map text (editor_keyboard_event dev s e fs d key true).0.lines
  typing_is_lost s e fs d key ch on open_file edits low high =
      let r : Running e = (on, open_file) in
      let e1 = clamp s (edit_key s e key) in
      let r1 : Running e1 = clamp-Running s _ (edit_key-Running s e key r) in
      rw (event-Edits s e fs d key r edits) λ short.
        ap (λ (x : Editor). map text x.lines)
          (event-Edits s e1 fs d ch r1 (omega arith, omega arith, omega arith))
        ∙ ap (map text) (clamp-lines s (edit_key s e1 ch))
        ∙ ap (λ (x : Editor). map text x.lines) (edit_key-printable s e1 ch (ground arith))
        ∙ insert_behind e1 ch (omega (arith, clamp-cx s (edit_key s e key)))
