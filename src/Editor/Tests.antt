-- ===== src/Editor/Tests.antt =====
-- The editor on a blank disk: runs of it, and its theorems at concrete lines.
use flare_os.Prelude.{ℕ, ◌≡◌, refl, arith, map, true, false, List, [], ◌∷◌, replicate}
use flare_os.Key
use flare_os.BlockDevice.MemDisk.{mem_disk, blank}
use flare_os.FlareFs.State.{Fs, install_media, zero_super, zero_entry}
use flare_os.Editor.Lines.{empty_line, text, load_lines, saved_bytes}
use flare_os.Editor.{Editor, Screen, editor_keyboard_event, edit_key, clamp}
use flare_os.Editor.Typing.{typing_is_lost}
use flare_os.Editor.Bounds.{IsValid, editor_keyboard_event-IsValid}
use flare_os.Editor.Saving.{load_lines-saved_bytes}

abbrev fs0 : Fs
fs0 = record {
  source_files = [];
  files = [];
  super = zero_super;
  dir = replicate 32 zero_entry;
  writable = false;
  backend = install_media;
}

abbrev screen : Screen
screen = record { width = 640; height = 480; font_height = 16 }

-- The buffer of a line that holds "abc".
abbrev abc : List ℕ
abc = b'a' ∷ b'b' ∷ b'c' ∷ replicate 253 0

-- A new file of one empty line.
abbrev opened : Editor
opened = record {
  active = true;
  dirty = true;
  lines = replicate 500 empty_line;
  line_count = 1;
  cx = 0;
  cy = 0;
  scroll = 0;
  modified = false;
  filename = b'a' ∷ [];
  quit = false;
}

editor_keyboard_event-IsValid_example :
    IsValid (editor_keyboard_event mem_disk screen opened fs0 blank Key.enter true).0
editor_keyboard_event-IsValid_example =
    editor_keyboard_event-IsValid mem_disk screen opened fs0 blank Key.enter true
      (record { some_line = omega arith; within = omega arith; cy_in = omega arith })

load_lines-saved_bytes_example :
    load_lines 500 (saved_bytes 0 (abc ∷ empty_line ∷ [])) ≡ map text (abc ∷ empty_line ∷ [])
unfolding text
load_lines-saved_bytes_example = load_lines-saved_bytes (abc ∷ empty_line ∷ []) (omega arith) (
  (omega arith, omega arith, (omega arith, omega arith, (omega arith, omega arith, tt))),
  omega arith,
  omega arith,
  (tt, omega arith, omega arith, tt),
)

typing_is_lost_example :
    map text
      (editor_keyboard_event mem_disk screen
        (editor_keyboard_event mem_disk screen opened fs0 blank Key.home true).0
        fs0
        blank
        b'x'
        true).0.lines
    ≡ map text (editor_keyboard_event mem_disk screen opened fs0 blank Key.home true).0.lines
unfolding editor_keyboard_event edit_key clamp text
typing_is_lost_example =
    typing_is_lost mem_disk screen opened fs0 blank Key.home b'x' refl refl
      (omega arith, omega arith, omega arith) (omega arith) (omega arith) (omega arith)
