-- ===== src/Shell/Keys.antt =====
-- What kernel/core/shell.c does with keys and timer ticks.
use flare_os.Prelude.{
  ℕ, ◌+◌, ◌-◌, ◌%◌, ◌^◌, Bool, true, false, not, ◌&&◌, ◌||◌, List, [], ◌∷◌, ◌++◌, ltb, leb, ◌==◌,
  if◌then◌else◌, length, take,
}
use flare_os.Key
use flare_os.BlockDevice.{BlockDevice}
use flare_os.FlareFs.Ops.{fs_write_file}
use flare_os.FlareFs.Mount.{fs_install}
use flare_os.Keyboard.{Layout, keyboard_set_layout}
use flare_os.Snake.{snake_keyboard_event, snake_timer_tick}
use flare_os.Editor.{editor_keyboard_event}
use flare_os.Shell.Text.{bytes}
use flare_os.Shell.Lines.{ShellSession}
use flare_os.Shell.State.{
  Shell, System, Env, Services, View, say, session_at, put_session, count_up, session_count,
  timer_hz, shell_open_switcher, shell_open_task_manager, shell_set_active_session,
  snake_visible_for_active_session, editor_visible_for_active_session,
  browser_visible_for_active_session,
}
use flare_os.Shell.Files.{shell_report_root}
use flare_os.Shell.Status.{layout_name, layout_code, shell_report_layout}
use flare_os.Shell.Apps.{with_shell, shell_consume_snake_result, shell_cleanup_exited_apps}
use flare_os.Shell.Run.{Fate, shell_run_command}

abbrev is_tty_key : ℕ → Bool
is_tty_key key = leb b'1' key && ltb key (b'1' + session_count)

abbrev dirtied : Shell → Shell
dirtied sh = record sh { shell_dirty = true }

abbrev back : Shell → Shell
back sh = record sh { view = View.session; shell_dirty = true }

unfoldable pub shell_handle_switcher_key : Shell → ℕ → Shell
shell_handle_switcher_key sh key =
    let n = sh.selected_session in
    if key == Key.esc || key == b'q'
    then back sh
    else if key == b'w' || key == b'k'
    then dirtied (record sh { selected_session = if ltb 0 n then n - 1 else session_count - 1 })
    else if key == b's' || key == b'j'
    then dirtied (record sh { selected_session = (n + 1) % session_count })
    else if is_tty_key key
    then shell_set_active_session sh (key - b'1')
    else if key == Key.enter || key == b' '
    then shell_set_active_session sh n
    else dirtied sh

unfoldable pub shell_handle_taskman_key : Shell → ℕ → Shell
shell_handle_taskman_key sh key =
    if key == Key.esc || key == b'q'
    then back sh
    else if is_tty_key key
    then shell_set_active_session sh (key - b'1')
    else dirtied sh

-- The branches of a key in a session that shows no program; the command line of `enter` is
-- `shell_run_command`.
unfoldable pub type_key : ShellSession → ℕ → ShellSession
type_key s key =
    if key == Key.backspace
    then record s { input = take (length s.input - 1) s.input }
    else if leb b' ' key && (leb key b'~' && ltb (length s.input + 1) 80)
    then record s { input = s.input ++ key ∷ [] }
    else s

abbrev pub is_typed : ShellSession → ℕ → Bool
is_typed s key =
    key == Key.backspace || (leb b' ' key && (leb key b'~' && ltb (length s.input + 1) 80))

-- What every key that is pressed does first.
unfoldable pub count_key : Env → Shell → Shell
count_key env sh =
    let s = session_at sh sh.active_session in
    put_session sh sh.active_session
      (record s { key_count = count_up s.key_count; last_input_tick = env.now })

module _ {D W : Type 0} (dev : BlockDevice D) (services : Services W) where
  -- From a successful `fs_install` on.
  unfoldable pub installed : Env → System D W → ℕ → List ℕ → System D W
  installed env sys index name =
      let (ok, fs, d) = fs_write_file dev sys.fs sys.disk (bytes "keyboard.cfg") name false in
      let told =
        if not ok
        then say env sys.shell index (bytes "installer wrote flarefs but layout save failed")
        else say env sys.shell index (bytes "installer wrote flarefs to disk") in
      let reported =
        shell_report_root env fs (shell_report_layout env sys.keyboard told index) index in
      record sys { shell = reported; fs = fs; disk = d }

  unfoldable pub install_system : Env → System D W → System D W
  install_system env sys =
      let index = sys.shell.active_session in
      let layout = sys.shell.installer_layout in
      let (ok, fs, d) = fs_install dev sys.fs sys.disk in
      let set = record sys {
        keyboard = keyboard_set_layout sys.keyboard (layout_code layout);
        fs = fs;
        disk = d;
      } in
      let ended =
        if ok
        then installed env set index (layout_name layout)
        else with_shell set (say env set.shell index (bytes "installer failed")) in
      with_shell ended (back ended.shell)

  unfoldable pub shell_handle_installer_key : Env → System D W → ℕ → System D W
  shell_handle_installer_key env sys key =
      let sh = sys.shell in
      if key == Key.esc || key == b'q'
      then with_shell sys (back sh)
      else if key == b'1'
      then with_shell sys (dirtied (record sh { installer_layout = Layout.qwerty }))
      else if key == b'2'
      then with_shell sys (dirtied (record sh { installer_layout = Layout.azerty }))
      else if key == Key.enter
      then install_system env sys
      else sys

  abbrev pub after_enter : Fate → System D W → System D W
  after_enter Fate.returns sys = with_shell sys (dirtied sys.shell)
  after_enter Fate.halts sys = sys
  after_enter Fate.faults sys = sys

  -- A key in a session that shows no program.
  unfoldable pub line_key : Env → System D W → ℕ → Fate × System D W
  line_key env sys key =
      let sh = sys.shell in
      let index = sh.active_session in
      let s = session_at sh index in
      let (fate, ran) = shell_run_command dev services env sys index in
      if key == Key.esc
      then (Fate.returns, with_shell sys (shell_open_switcher sh))
      else if key == Key.enter
      then (fate, after_enter fate ran)
      else if is_typed s key
      then (
        Fate.returns,
        with_shell sys (record (put_session sh index (type_key s key)) { prompt_dirty = true }),
      )
      else (Fate.returns, sys)

  unfoldable pub snake_key : Env → System D W → ℕ → System D W
  snake_key env sys key =
      let played = record sys {
        shell = record (sys.shell) {
          snake_input_count = (sys.shell.snake_input_count + 1) % 2 ^ 32;
        };
        snake = snake_keyboard_event env.snake_ticks sys.snake key true;
      } in
      let told = shell_consume_snake_result env played in with_shell told (dirtied told.shell)

  unfoldable pub editor_key : Env → System D W → ℕ → System D W
  editor_key env sys key =
      let (editor, fs, d) =
        editor_keyboard_event dev env.screen sys.editor sys.fs sys.disk key true in
      record sys { shell = dirtied sys.shell; editor = editor; fs = fs; disk = d }

  unfoldable pub session_key : Env → System D W → ℕ → Fate × System D W
  session_key env sys key =
      let sh = sys.shell in
      if snake_visible_for_active_session sh sys.snake
      then (Fate.returns, snake_key env sys key)
      else if editor_visible_for_active_session sh sys.editor
      then (Fate.returns, editor_key env sys key)
      else if browser_visible_for_active_session sh (services.browser_active sys.world)
      then (
        Fate.returns,
        record sys {
          shell = dirtied sh;
          world = services.browser_keyboard_event key true sys.world;
        },
      )
      else line_key env sys key

  abbrev pub key_by_view : Env → System D W → ℕ → View → Fate × System D W
  key_by_view env sys key View.switcher =
      (Fate.returns, with_shell sys (shell_handle_switcher_key sys.shell key))
  key_by_view env sys key View.taskman =
      (Fate.returns, with_shell sys (shell_handle_taskman_key sys.shell key))
  key_by_view env sys key View.installer = (Fate.returns, shell_handle_installer_key env sys key)
  key_by_view env sys key View.session = session_key env sys key

  unfoldable pub shell_keyboard_event : Env → System D W → ℕ → Bool → Fate × System D W
  shell_keyboard_event env sys key pressed =
      let sh = count_key env sys.shell in
      let counted = with_shell sys sh in
      if not pressed
      then (Fate.returns, sys)
      else if leb Key.f1 key && leb key Key.f4
      then (Fate.returns, with_shell sys (shell_set_active_session sh (key - Key.f1)))
      else if key == Key.f10
      then (Fate.returns, with_shell sys (shell_open_task_manager sh))
      else key_by_view env counted key sh.view

  -- `++` on a u64.
  abbrev next_u64 : ℕ → ℕ
  next_u64 n = (n + 1) % 2 ^ 64

  unfoldable pub count_focus : Shell → Shell
  count_focus sh =
      let s = session_at sh sh.active_session in
      put_session sh sh.active_session (record s { focus_ticks = next_u64 s.focus_ticks })

  unfoldable pub tick_snake : Env → System D W → System D W
  tick_snake env sys =
      if snake_visible_for_active_session sys.shell sys.snake
      then record sys {
        shell = record (sys.shell) { snake_ticks = next_u64 sys.shell.snake_ticks };
        snake = snake_timer_tick env.snake_ticks sys.snake;
      }
      else sys

  abbrev pub is_taskman : View → Bool
  is_taskman View.taskman = true
  is_taskman _ = false

  unfoldable pub shell_timer_tick : Env → System D W → System D W
  shell_timer_tick env sys =
      let cleaned = shell_cleanup_exited_apps services (with_shell sys (count_focus sys.shell)) in
      let told = shell_consume_snake_result env (tick_snake env cleaned) in
      if is_taskman told.shell.view && env.now % timer_hz env == 0
      then with_shell told (dirtied told.shell)
      else told

  unfoldable pub shell_needs_redraw : System D W → Bool
  shell_needs_redraw sys =
      let sh = sys.shell in
      let dirty = sh.shell_dirty || sh.prompt_dirty in
      if snake_visible_for_active_session sh sys.snake
      then dirty || sys.snake.dirty
      else if editor_visible_for_active_session sh sys.editor
      then dirty || sys.editor.dirty
      else if browser_visible_for_active_session sh (services.browser_active sys.world)
      then dirty || services.browser_needs_redraw sys.world
      else dirty

-- What the file system and the programs took from the heap while an event was handled.
unfoldable pub take_memory : {D W : Type 0} → Env → System D W → System D W
take_memory env sys = record sys {
  heap = record { heap_offset = (sys.heap.heap_offset + env.taken) % 2 ^ 64 };
}
