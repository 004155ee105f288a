-- ===== src/Editor.antt =====
-- kernel/core/editor.c: a text editor over 500 line buffers of 256 bytes. Its drawing is left out.
-- `int` variables that are never negative are numbers; where the source subtracts, the model says
-- what a negative result does. Lines are C strings: a buffer's text ends at its first NUL.
pub mod Lines
pub mod Text
pub mod Typing
pub mod Bounds
pub mod Saving
mod Tests
use flare_os.Prelude.{
  ℕ, zero, suc, ◌+◌, ◌-◌, ◌/◌, ◌≤◌, Bool, true, false, not, ◌&&◌, ◌||◌, List, [], ◌∷◌, ◌++◌, Option,
  none, some, ltb, leb, ◌==◌, if◌then◌else◌, length, take, drop, replicate, get_or, set,
}
use flare_os.Key
use flare_os.BlockDevice.{BlockDevice}
use flare_os.FlareFs.State.{Fs}
use flare_os.FlareFs.Ops.{fs_write_file}
use flare_os.FlareFs.Lookup.{lookup}
use Lines.{
  empty_line, text, strlen, strcpy, insert_byte, delete_at, load_lines, put_texts, shift_lines_up,
  shift_lines_down, saved_bytes,
}

abbrev pub editor_max_lines : ℕ
editor_max_lines = 500

abbrev pub editor_max_line : ℕ
editor_max_line = 256

pub record Editor : Type 0 where
  pub active : Bool
  pub dirty : Bool
  pub lines : List (List ℕ)
  pub line_count : ℕ
  pub cx : ℕ
  pub cy : ℕ
  pub scroll : ℕ
  pub modified : Bool
  pub filename : List ℕ
  pub quit : Bool

-- What the editor asks of the display: video_width, video_height and video_font_height.
pub record Screen : Type 0 where
  pub width : ℕ
  pub height : ℕ
  pub font_height : ℕ

-- A difference below 0 is below 10 too, so the truncated one serves; so below.
pub editor_avail_cols : Screen → ℕ
editor_avail_cols s = let c = s.width / 8 - 6 in if ltb c 10 then 10 else c

pub editor_avail_rows : Screen → ℕ
editor_avail_rows s = let r = (s.height - 32) / s.font_height in if ltb r 5 then 5 else r

abbrev pub current : Editor → List ℕ
current e = get_or e.lines e.cy empty_line

unfoldable pub editor_start : Editor → Fs → List ℕ → Editor
editor_start e fs filename =
    let name = take 63 filename in
    let opened : Editor = record {
      active = true;
      dirty = true;
      lines = set e.lines 0 (strcpy (get_or e.lines 0 empty_line) []);
      line_count = 1;
      cx = 0;
      cy = 0;
      scroll = 0;
      modified = false;
      filename = name;
      quit = false;
    } in
    elim (lookup name fs.files) [
      | none ↦ opened
      | some bytes ↦
          let texts = load_lines editor_max_lines bytes in
          if length texts == 0
          then opened
          else record opened { lines = put_texts texts opened.lines; line_count = length texts }
    ]

pub editor_active : Editor → Bool
editor_active e = e.active && not e.quit

pub editor_insert_char : Editor → ℕ → Editor
editor_insert_char e ch = if leb (editor_max_line - 1) (strlen (current e)) then e else record e {
  lines = set e.lines e.cy (insert_byte (current e) e.cx ch);
  cx = e.cx + 1;
  modified = true;
  dirty = true;
}

-- `rest` is 0 where the cursor stands behind the text; then one byte is moved.
pub editor_newline : Editor → Editor
editor_newline e =
    let line = current e in
    let rest = strlen line - e.cx in
    let shifted = shift_lines_down e.lines (e.cy + 1) (e.line_count - (e.cy + 1)) in
    let next = get_or shifted (e.cy + 1) empty_line in
    let moved = take (rest + 1) (drop e.cx line) in
    if leb editor_max_lines e.line_count then e else record e {
      lines =
          set (set shifted (e.cy + 1) (moved ++ drop (length moved) next)) e.cy (set line e.cx 0);
      line_count = e.line_count + 1;
      cy = e.cy + 1;
      cx = 0;
      modified = true;
      dirty = true;
    }

-- Line `to` takes over the text of the next line behind `plen` characters of its own, and the lines
-- below move up.
pub join_next : Editor → ℕ → Editor
join_next e to =
    let line = get_or e.lines to empty_line in
    let plen = strlen line in
    let next = get_or e.lines (to + 1) empty_line in
    let joined = take plen line ++ strcpy (drop plen line) (text next) in
    record e {
      lines = shift_lines_up (set e.lines to joined) (to + 1) (e.line_count - 1 - (to + 1));
      line_count = e.line_count - 1;
      modified = true;
      dirty = true;
    }

pub editor_backspace : Editor → Editor
unfolding join_next
editor_backspace e =
    let above = get_or e.lines (e.cy - 1) empty_line in
    if ltb 0 e.cx
    then record e {
      lines = set e.lines e.cy (delete_at (e.cx - 1) (current e));
      cx = e.cx - 1;
      modified = true;
      dirty = true;
    }
    else if ltb 0 e.cy && ltb (strlen above + strlen (current e)) (editor_max_line - 1)
    then record (join_next e (e.cy - 1)) { cy = e.cy - 1; cx = strlen above }
    else e

pub editor_delete : Editor → Editor
unfolding join_next
editor_delete e =
    if not (get_or (current e) e.cx 0 == 0)
    then record e {
      lines = set e.lines e.cy (delete_at e.cx (current e));
      modified = true;
      dirty = true;
    }
    else if ltb (e.cy + 1) e.line_count
        && ltb (strlen (current e) + strlen (get_or e.lines (e.cy + 1) empty_line))
            (editor_max_line - 1)
    then join_next e e.cy
    else e

-- The last lines of `editor_keyboard_event`: scrolling, and the limits on the cursor's column.
pub clamp : Screen → Editor → Editor
unfolding editor_avail_rows editor_avail_cols
clamp s e =
    let rows = editor_avail_rows s in
    let cols = editor_avail_cols s in
    let up = if ltb e.cy e.scroll then e.cy else e.scroll in
    let scroll = if leb (up + rows) e.cy then e.cy - rows + 1 else up in
    let max_cx = strlen (current e) in
    let cx1 = if ltb max_cx e.cx then max_cx else e.cx in
    let cx2 = if ltb cx1 2 then 2 else cx1 in
    record e { scroll = scroll; cx = if leb cols cx2 then cols - 1 else cx2 }

abbrev moved : Editor → ℕ → ℕ → Editor
moved e cx cy = record e { cx = cx; cy = cy; dirty = true }

-- The chain of tests on a key that neither leaves nor saves.
pub edit_key : Screen → Editor → ℕ → Editor
edit_key s e key =
    if key == Key.up && ltb 0 e.cy
    then moved e e.cx (e.cy - 1)
    else if key == Key.down && ltb (e.cy + 1) e.line_count
    then moved e e.cx (e.cy + 1)
    else if key == Key.left && ltb 0 e.cx
    then moved e (e.cx - 1) e.cy
    else if key == Key.right
    then (if ltb e.cx (strlen (current e)) then moved e (e.cx + 1) e.cy else e)
    else if key == Key.home
    then moved e 0 e.cy
    else if key == Key.«end»
    then moved e (strlen (current e)) e.cy
    else if key == Key.pgup
    then moved e e.cx (e.cy - editor_avail_rows s)
    else if key == Key.pgdn
    then (let y = e.cy + editor_avail_rows s in
        moved e e.cx (if leb e.line_count y then e.line_count - 1 else y))
    else if key == Key.backspace
    then editor_backspace e
    else if key == Key.del
    then editor_delete e
    else if key == Key.enter
    then editor_newline e
    else if leb b' ' key && leb key b'~'
    then editor_insert_char e key
    else if key == Key.tab
    then editor_insert_char (editor_insert_char e b' ') b' '
    else e

module _ {D : Type 0} (dev : BlockDevice D) where
  pub editor_save : Editor → Fs → D → Editor × Fs × D
  editor_save e fs d =
      let bytes = saved_bytes 0 (take e.line_count e.lines) in
      let (_, fs', d') = fs_write_file dev fs d e.filename bytes false in
      let saved : Editor = record e { modified = false; dirty = true } in
      if not fs.writable
      then (e, fs, d)
      else if length bytes == 0
      then (saved, fs, d)
      else (saved, fs', d')

  -- 0x271 is Ctrl+Q, and 0x273 Ctrl+S.
  pub editor_keyboard_event : Screen → Editor → Fs → D → ℕ → Bool → Editor × Fs × D
  editor_keyboard_event s e fs d key pressed =
      if not e.active || (not pressed || e.quit)
      then (e, fs, d)
      else if key == 0x271
      then (record e { quit = true; active = false }, fs, d)
      else if key == 0x273
      then editor_save e fs d
      else if key == Key.esc
      then (record e { quit = true; active = false }, fs, d)
      else (clamp s (edit_key s e key), fs, d)
