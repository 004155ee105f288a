-- ===== src/Shell/Apps.antt =====
-- The programs that kernel/core/shell.c runs in its sessions: their start, and what is left of them.
use flare_os.Prelude.{
  ℕ, ◌+◌, ◌*◌, ◌/◌, Bool, true, false, not, ◌&&◌, List, [], Option, none, some, ltb, leb, ◌==◌,
  if◌then◌else◌, length,
}
use flare_os.Memory.{heap_mark, heap_reset}
use flare_os.Snake.{snake_start, snake_consume_result}
use flare_os.Editor.{editor_start, editor_active}
use flare_os.Shell.Text.{bytes, append_u64_dec}
use flare_os.Shell.State.{
  Shell, Env, System, Services, say, is_owner, current_session_has_app, session_count,
}
use flare_os.Shell.Words.{skip_spaces}
use flare_os.Shell.Status.{then_text}

abbrev pub snake_min_ram_bytes : ℕ
snake_min_ram_bytes = 8 * 1024 * 1024

abbrev pub owner_number : Option ℕ → ℕ
owner_number none = 0
owner_number (some owner) = owner + 1

abbrev pub is_some : Option ℕ → Bool
is_some none = false
is_some (some owner) = true

abbrev other_app : List ℕ
other_app = bytes "another app is running in this session"

-- What becomes of the shell with the result of a game, in the session that owns it.
abbrev pub report_score : Env → Shell → (owner result : Option ℕ) → Shell
report_score env sh owner none = sh
report_score env sh none (some score) = sh
report_score env sh (some owner) (some score) =
    let line = append_u64_dec 64 (then_text 64 [] "snake score ") score in
    if leb session_count owner
    then sh
    else record (say env sh owner line) { snake_owner = none; shell_dirty = true }

module _ {D W : Type 0} where
  abbrev pub with_shell : System D W → Shell → System D W
  with_shell sys sh = record sys { shell = sh }

  -- The owner is -1 where `owner_number` is 0.
  unfoldable pub shell_launch_snake : Env → System D W → ℕ → System D W
  shell_launch_snake env sys index =
      let sh = sys.shell in
      let needs = append_u64_dec 96 (then_text 96 [] "snake needs at least ") 8 in
      let has =
        append_u64_dec 96 (then_text 96 [] "detected ") (env.total_memory / (1024 * 1024)) in
      let told = say env sh index (then_text 96 needs " MiB ram") in
      let running =
        append_u64_dec 64 (then_text 64 [] "snake already running in tty")
          (owner_number sh.snake_owner) in
      if env.total_memory == 0
      then with_shell sys (say env sh index (bytes "snake needs detected system RAM"))
      else if ltb env.total_memory snake_min_ram_bytes
      then with_shell sys (say env told index (then_text 96 has " MiB"))
      else if sys.snake.active && not (is_owner sh.snake_owner sh.active_session)
      then with_shell sys (say env sh index running)
      else if current_session_has_app sh && not sys.snake.active
      then with_shell sys (say env sh index other_app)
      else record sys {
        shell = record sh {
          snake_owner = some sh.active_session;
          snake_ticks = 0;
          snake_input_count = 0;
          snake_render_count = 0;
          app_heap_mark = heap_mark sys.heap;
        };
        snake =
            snake_start env.now env.screen.width env.screen.height env.total_memory
              snake_min_ram_bytes sys.snake;
      }

  unfoldable pub shell_launch_editor : Env → System D W → ℕ → List ℕ → System D W
  shell_launch_editor env sys index args =
      let sh = sys.shell in
      let name = skip_spaces args in
      if length name == 0
      then with_shell sys (say env sh index (bytes "usage: edit <filename>"))
      else if current_session_has_app sh
      then with_shell sys (say env sh index other_app)
      else record sys {
        shell = record sh {
          editor_owner = some sh.active_session;
          app_heap_mark = heap_mark sys.heap;
        };
        editor = editor_start sys.editor sys.fs name;
      }

  unfoldable pub shell_consume_snake_result : Env → System D W → System D W
  shell_consume_snake_result env sys =
      let (result, snake) = snake_consume_result sys.snake in
      record sys { snake = snake; shell = report_score env sys.shell sys.shell.snake_owner result }

  module _ (services : Services W) where
    unfoldable pub shell_launch_browser : Env → System D W → ℕ → List ℕ → System D W
    shell_launch_browser env sys index args =
        let sh = sys.shell in
        let url = skip_spaces args in
        if length url == 0
        then with_shell sys (say env sh index (bytes "usage: browse <url>"))
        else if current_session_has_app sh
        then with_shell sys (say env sh index other_app)
        else record sys {
          shell = record sh {
            browser_owner = some sh.active_session;
            app_heap_mark = heap_mark sys.heap;
          };
          world = services.browser_start url sys.world;
        }

    abbrev pub exited_snake : System D W → System D W
    exited_snake sys =
        if is_some sys.shell.snake_owner && not sys.snake.active
        then record sys {
          shell = record (sys.shell) { snake_owner = none };
          heap = heap_reset sys.heap sys.shell.app_heap_mark;
        }
        else sys

    abbrev pub exited_editor : System D W → System D W
    exited_editor sys =
        if is_some sys.shell.editor_owner && not (editor_active sys.editor)
        then record sys {
          shell = record (sys.shell) { editor_owner = none };
          heap = heap_reset sys.heap sys.shell.app_heap_mark;
        }
        else sys

    abbrev pub exited_browser : System D W → System D W
    exited_browser sys =
        if is_some sys.shell.browser_owner && not (services.browser_active sys.world)
        then record sys {
          shell = record (sys.shell) { browser_owner = none };
          heap = heap_reset sys.heap sys.shell.app_heap_mark;
        }
        else sys

    unfoldable pub shell_cleanup_exited_apps : System D W → System D W
    shell_cleanup_exited_apps sys = exited_browser (exited_editor (exited_snake sys))

unfoldable pub shell_cleanup_apps : Shell → Shell
shell_cleanup_apps sh = record sh { snake_owner = none; editor_owner = none; browser_owner = none }
