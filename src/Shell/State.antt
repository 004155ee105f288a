-- ===== src/Shell/State.antt =====
-- The state of kernel/core/shell.c, and of the machine that the shell works on.
use flare_os.Prelude.{
  ℕ, ◌+◌, ◌-◌, ◌*◌, ◌/◌, ◌^◌, ◌%◌, Bool, true, false, ◌&&◌, ◌||◌, List, [], Option, none, some, ltb,
  leb, ◌==◌, if◌then◌else◌, get_or, set,
}
use flare_os.FlareFs.State.{Fs}
use flare_os.Keyboard.{Keyboard, Layout}
use flare_os.Memory.{Heap}
use flare_os.Snake.{Snake}
use flare_os.Editor.{Editor, Screen, editor_active}
use flare_os.Shell.Lines.{ShellSession, session_push_line}

pub data View : Type 0 where
  session switcher taskman installer : View

-- The variables of the shell; `none` is the -1 of an owner.
pub record Shell : Type 0 where
  pub sessions : List ShellSession
  pub active_session : ℕ
  pub selected_session : ℕ
  pub view : View
  pub installer_layout : Layout
  pub snake_owner : Option ℕ
  pub snake_ticks : ℕ
  pub snake_input_count : ℕ
  pub snake_render_count : ℕ
  pub editor_owner : Option ℕ
  pub browser_owner : Option ℕ
  pub app_heap_mark : ℕ
  pub shell_dirty : Bool
  pub prompt_dirty : Bool

-- The machine: the shell, and what its commands reach. `world` is the state of the browser and the
-- network.
pub record System (D W : Type 0) : Type 0 where
  pub shell : Shell
  pub keyboard : Keyboard
  pub fs : Fs
  pub disk : D
  pub heap : Heap
  pub snake : Snake
  pub editor : Editor
  pub world : W

-- What the shell reads of the machine during a call: `g_ticks`, `g_boot_info`, the console's size
-- and the display's, the page tables' counters, the answers that the snake game gets for its ticks,
-- and the bytes that the file system and the programs take from the heap.
pub record Env : Type 0 where
  pub now : ℕ
  pub total_memory : ℕ
  pub boot_timer_hz : ℕ
  pub console_width : ℕ
  pub console_height : ℕ
  pub screen : Screen
  pub table_count : ℕ
  pub mapped_bytes : ℕ
  pub snake_ticks : ℕ → ℕ
  pub taken : ℕ

-- What the shell asks of the browser and the network.
pub record Services (W : Type 0) : Type 0 where
  pub browser_start : List ℕ → W → W
  pub browser_active : W → Bool
  pub browser_needs_redraw : W → Bool
  pub browser_keyboard_event : ℕ → Bool → W → W
  pub net_is_ready : W → Bool
  pub net_ip : W → ℕ
  pub net_gateway : W → ℕ
  pub net_dns : W → ℕ
  pub net_mask : W → ℕ
  pub net_http_get : List ℕ → W → Option (List ℕ) × W
  pub net_http_post : List ℕ → List ℕ → W → Option (List ℕ) × W

abbrev pub session_count : ℕ
session_count = 4

abbrev pub timer_hz : Env → ℕ
timer_hz env = if env.boot_timer_hz == 0 then 60 else env.boot_timer_hz

unfoldable pub ticks_to_seconds : Env → ℕ → ℕ
ticks_to_seconds env ticks = ticks / timer_hz env

unfoldable pub ram_mebibytes : ℕ → ℕ
ram_mebibytes bytes = bytes / (1024 * 1024)

-- A difference below 0 is below 12 too, so the truncated one serves; so in `body_rows`.
unfoldable pub body_cols : Env → ℕ
body_cols env = let cols = env.console_width - 2 in if ltb 12 cols then cols else 12

unfoldable pub body_rows : Env → ℕ
body_rows env = let rows = env.console_height - 3 in if ltb 4 rows then rows else 4

-- A session as `memset` leaves it.
abbrev pub empty_session : ShellSession
empty_session = record {
  user = [];
  lines = [];
  input = [];
  started_tick = 0;
  last_input_tick = 0;
  last_render_tick = 0;
  focus_ticks = 0;
  render_count = 0;
  key_count = 0;
  command_count = 0;
  switch_count = 0;
}

abbrev pub session_at : Shell → ℕ → ShellSession
session_at sh index = get_or sh.sessions index empty_session

unfoldable pub put_session : Shell → ℕ → ShellSession → Shell
put_session sh index s = record sh { sessions = set sh.sessions index s }

-- `++` on a u32.
abbrev pub count_up : ℕ → ℕ
count_up n = (n + 1) % 2 ^ 32

-- `session_push_line` on a session of the shell.
unfoldable pub say : Env → Shell → ℕ → List ℕ → Shell
say env sh index text =
    put_session sh index (session_push_line (body_cols env) (session_at sh index) text)

abbrev pub is_owner : Option ℕ → ℕ → Bool
is_owner none index = false
is_owner (some owner) index = owner == index

abbrev pub is_session_view : View → Bool
is_session_view View.session = true
is_session_view View.switcher = false
is_session_view View.taskman = false
is_session_view View.installer = false

unfoldable pub snake_visible_for_active_session : Shell → Snake → Bool
snake_visible_for_active_session sh snake =
    is_session_view sh.view && (snake.active && is_owner sh.snake_owner sh.active_session)

unfoldable pub editor_visible_for_active_session : Shell → Editor → Bool
editor_visible_for_active_session sh editor =
    is_session_view sh.view && (editor_active editor && is_owner sh.editor_owner sh.active_session)

unfoldable pub browser_visible_for_active_session : Shell → Bool → Bool
browser_visible_for_active_session sh browser_active =
    is_session_view sh.view && (browser_active && is_owner sh.browser_owner sh.active_session)

unfoldable pub current_session_has_app : Shell → Bool
current_session_has_app sh =
    is_owner sh.snake_owner sh.active_session
    || (is_owner sh.editor_owner sh.active_session || is_owner sh.browser_owner sh.active_session)

unfoldable pub shell_open_switcher : Shell → Shell
shell_open_switcher sh = record sh {
  view = View.switcher;
  selected_session = sh.active_session;
  shell_dirty = true;
}

unfoldable pub shell_open_task_manager : Shell → Shell
shell_open_task_manager sh = record sh { view = View.taskman; shell_dirty = true }

unfoldable pub shell_open_installer : Shell → Layout → Shell
shell_open_installer sh layout = record sh {
  view = View.installer;
  installer_layout = layout;
  shell_dirty = true;
}

unfoldable pub shell_set_active_session : Shell → ℕ → Shell
shell_set_active_session sh index =
    let s = session_at sh index in
    let counted : ShellSession = record s { switch_count = count_up s.switch_count } in
    if leb session_count index then sh else record (put_session sh index counted) {
      active_session = index;
      selected_session = index;
      view = View.session;
      shell_dirty = true;
    }
