-- ===== src/Editor/Bounds.antt =====
-- The cursor of kernel/core/editor.c stays on a line of the file, and the file within its buffers.
use flare_os.Prelude.{ℕ, ◌≤◌, ◌<◌, Bool, arith}
use flare_os.BlockDevice.{BlockDevice}
use flare_os.FlareFs.State.{Fs}
use flare_os.Editor.{
  Editor, Screen, clamp, edit_key, editor_insert_char, editor_newline, editor_backspace,
  editor_delete, editor_save, editor_keyboard_event,
}

pub record IsValid (e : Editor) : Type 0 where
  pub some_line : 1 ≤ e.line_count
  pub within : e.line_count ≤ 500
  pub cy_in : e.cy < e.line_count

insert-IsValid : (e : Editor) (ch : ℕ) → IsValid e → IsValid (editor_insert_char e ch)
unfolding editor_insert_char
insert-IsValid e ch v = ground arith

newline-IsValid : (e : Editor) → IsValid e → IsValid (editor_newline e)
unfolding editor_newline
newline-IsValid e v = ground arith

backspace-IsValid : (e : Editor) → IsValid e → IsValid (editor_backspace e)
unfolding editor_backspace
backspace-IsValid e v = ground arith

delete-IsValid : (e : Editor) → IsValid e → IsValid (editor_delete e)
unfolding editor_delete
delete-IsValid e v = ground arith

edit_key-IsValid : (s : Screen) (e : Editor) (key : ℕ) → IsValid e → IsValid (edit_key s e key)
unfolding edit_key
edit_key-IsValid s e key v = ground (
  arith,
  insert-IsValid e key v,
  insert-IsValid e b' ' v,
  insert-IsValid (editor_insert_char e b' ') b' ',
  newline-IsValid e v,
  backspace-IsValid e v,
  delete-IsValid e v,
)

clamp-IsValid : (s : Screen) (e : Editor) → IsValid e → IsValid (clamp s e)
unfolding clamp
clamp-IsValid s e v = ground arith

module _ {D : Type 0} (dev : BlockDevice D) where
  save-IsValid : (e : Editor) (fs : Fs) (d : D) → IsValid e → IsValid (editor_save dev e fs d).0
  unfolding editor_save
  save-IsValid e fs d v = ground arith

  -- Whatever key comes, the file keeps between 1 and 500 lines and the cursor stays on one of them.
  pub editor_keyboard_event-IsValid :
      (s : Screen) (e : Editor) (fs : Fs) (d : D) (key : ℕ) (pressed : Bool)
      → IsValid e
      → IsValid (editor_keyboard_event dev s e fs d key pressed).0
  unfolding editor_keyboard_event
  editor_keyboard_event-IsValid s e fs d key pressed v = ground (
    arith,
    save-IsValid e fs d v,
    clamp-IsValid s (edit_key s e key) (edit_key-IsValid s e key v),
  )
