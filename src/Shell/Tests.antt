-- ===== src/Shell/Tests.antt =====
-- A machine with an empty FlareFS root and a shell, and the theorems on the shell at it.
use flare_os.Prelude.{
  ℕ, ◌*◌, ◌≡◌, refl, Bool, true, false, none, some, List, [], ◌∷◌, ◌++◌, arith, replicate,
}
use flare_os.Key
use flare_os.BlockDevice.MemDisk
use flare_os.BlockDevice.MemDisk.{MemDisk, mem_disk, blank}
use flare_os.FlareFs.State.{Fs, flarefs, zero_entry}
use flare_os.FlareFs.Mount.{fresh_super}
use flare_os.FlareFs.Encoding.{super_bytes, dir_bytes, entry_bytes}
use flare_os.FlareFs.Io.{
  flarefs_write_sector, flarefs_write_super, flarefs_write_directory, write_directory_from,
  write_data_from,
}
use flare_os.FlareFs.Ops.{
  same_text, refused_char, valid_from, flarefs_valid_name, find_slot_from, flarefs_find_slot,
  final_bytes, entry_index, sectors_for, entry_for, put_file, store_file, flarefs_write_internal,
  fs_write_file, free_entry_from,
}
use flare_os.Keyboard.{initial}
use flare_os.Memory.{memory_init}
use flare_os.Snake.{Snake, State, Direction}
use flare_os.Editor.{Editor}
use flare_os.Shell.Text.{bytes, decimal}
use flare_os.Shell.Decimal.{value_from, decimal-value}
use flare_os.Shell.Lines.{ShellSession, session_push_line}
use flare_os.Shell.Wrapping.{wrapped, concat, Narrow, last_128, session_push_line-lines}
use flare_os.Shell.State.{Shell, System, Env, Services, View, empty_session, say}
use flare_os.Shell.Words.{Command, command_of, drop_prefix}
use flare_os.Shell.Files.{shell_cat_file, shell_write_file_command}
use flare_os.Shell.Starting.{shell_init}
use flare_os.Shell.Valid.{IsValid}
use flare_os.Shell.History.{Event, run, history-IsValid}
use flare_os.Shell.Storing.{cat-write}

abbrev env : Env
env = record {
  now = 120;
  total_memory = 64 * 1024 * 1024;
  boot_timer_hz = 60;
  console_width = 80;
  console_height = 30;
  screen = record { width = 640; height = 480; font_height = 16 };
  table_count = 3;
  mapped_bytes = 4096;
  snake_ticks = λ n. n;
  taken = 64;
}

-- A browser that does nothing, and a network that is down.
abbrev services : Services Bool
services = record {
  browser_start = λ _ w. w;
  browser_active = λ _. false;
  browser_needs_redraw = λ _. false;
  browser_keyboard_event = λ _ _ w. w;
  net_is_ready = λ _. false;
  net_ip = λ _. 0;
  net_gateway = λ _. 0;
  net_dns = λ _. 0;
  net_mask = λ _. 0;
  net_http_get = λ _ w. (none, w);
  net_http_post = λ _ _ w. (none, w);
}

abbrev root_fs : Fs
root_fs = record {
  source_files = [];
  files = [];
  super = record fresh_super { next_free_sector = 5 };
  dir = replicate 32 zero_entry;
  writable = true;
  backend = flarefs;
}

abbrev no_game : Snake
no_game = record {
  active = false;
  dirty = false;
  result_ready = false;
  state = State.splash;
  dir = Direction.dir_up;
  next_dir = Direction.dir_up;
  move_acc = 0;
  tick_div = 0;
  body = [];
  food = (0, 0);
  score = 0;
  high_score = 0;
  last_score = 0;
  rng = 0;
  cell_size = 0;
  cols = 0;
  rows = 0;
}

-- An editor with a text that is not saved.
abbrev draft : Editor
draft = record {
  active = true;
  dirty = true;
  lines = (b'x' ∷ replicate 255 0) ∷ [];
  line_count = 1;
  cx = 2;
  cy = 0;
  scroll = 0;
  modified = true;
  filename = b'a' ∷ [];
  quit = false;
}

abbrev user : List ℕ → ShellSession
user name = record empty_session { user = name; input = bytes "halt" }

-- The first session owns the editor, and the second is active.
abbrev shell : Shell
shell = record {
  sessions =
      user (bytes "root") ∷ user (bytes "dev") ∷ user (bytes "guest") ∷ user (bytes "ops") ∷ [];
  active_session = 1;
  selected_session = 1;
  view = View.session;
  installer_layout = flare_os.Keyboard.Layout.qwerty;
  snake_owner = none;
  snake_ticks = 0;
  snake_input_count = 0;
  snake_render_count = 0;
  editor_owner = some 0;
  browser_owner = none;
  app_heap_mark = 0;
  shell_dirty = false;
  prompt_dirty = false;
}

abbrev machine : System MemDisk Bool
machine = record {
  shell = shell;
  keyboard = initial;
  fs = root_fs;
  disk = blank;
  heap = memory_init;
  snake = no_game;
  editor = draft;
  world = false;
}

parses_echo : command_of (bytes "echo  hi") ≡ Command.echo (bytes " hi")
unfolding command_of same_text drop_prefix
parses_echo = refl

parses_top : command_of (bytes "tasks") ≡ Command.open_top
unfolding command_of same_text drop_prefix
parses_top = refl

session_push_line-lines_example :
    ((session_push_line 12 empty_session (bytes "flareOS x86_64")).lines
      ≡ last_128 ([] ++ wrapped 12 (bytes "flareOS x86_64")))
    × (concat (wrapped 12 (bytes "flareOS x86_64")) ≡ bytes "flareOS x86_64")
    × Narrow 12 (wrapped 12 (bytes "flareOS x86_64"))
session_push_line-lines_example =
    session_push_line-lines 12 empty_session (bytes "flareOS x86_64") (omega arith) (omega arith)

decimal-value_example : value_from 0 (decimal 1209) ≡ 1209
decimal-value_example = decimal-value 1209 (omega arith)

-- F2, "ls", enter and a tick.
abbrev keys : List Event
keys =
    Event.key env Key.f2 true
    ∷ Event.key env b'l' true
    ∷ Event.key env b's' true
    ∷ Event.key env Key.enter true
    ∷ Event.tick env
    ∷ []

history-IsValid_example :
    IsValid
      (run mem_disk services
        (record machine { shell = shell_init env root_fs initial shell })
        keys).1.shell
history-IsValid_example = history-IsValid mem_disk services env shell machine keys

written : (fs_write_file mem_disk root_fs blank (bytes "a") (bytes "hi") false).0 ≡ true
unfolding flarefs_write_sector flarefs_write_super flarefs_write_directory super_bytes dir_bytes
    entry_bytes write_directory_from MemDisk.write_sector fs_write_file flarefs_write_internal
    flarefs_valid_name valid_from refused_char flarefs_find_slot find_slot_from entry_index
    final_bytes store_file sectors_for entry_for write_data_from put_file same_text free_entry_from
written = refl

cat-write_example :
    (let (told, fs', _) =
        shell_write_file_command mem_disk env root_fs blank shell 1 (bytes "a hi") false in
      (told ≡ say env shell 1 (bytes "file written"))
      × (shell_cat_file env fs' told 1 (bytes "a") ≡ say env told 1 (bytes "hi")))
cat-write_example =
    cat-write mem_disk env root_fs blank shell 1 b'a' b'h' [] (bytes "i") refl (refl, tt)
      (omega arith) (omega arith, omega arith, (omega arith, omega arith, tt)) (omega arith) refl
      written
