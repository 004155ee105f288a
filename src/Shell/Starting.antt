-- ===== src/Shell/Starting.antt =====
-- The start of kernel/core/shell.c.
use flare_os.Prelude.{ℕ, ◌+◌, true, List, [], ◌∷◌, none, ◌==◌, if◌then◌else◌}
use flare_os.FlareFs.State.{Fs}
use flare_os.Keyboard.{Keyboard, Layout}
use flare_os.Shell.Text.{bytes, append_text, append_u64_dec}
use flare_os.Shell.Lines.{ShellSession, session_push_line}
use flare_os.Shell.State.{Shell, Env, View, empty_session, body_cols}
use flare_os.Shell.Files.{root_line}
use flare_os.Shell.Status.{layout_name, then_text}

-- The greeting that `shell_init` leaves in a new session.
unfoldable pub greeted : Env → Fs → Layout → ℕ → List ℕ → ShellSession
greeted env fs layout i user =
    let cols = body_cols env in
    let tty = append_u64_dec 48 (then_text 48 [] "flareOS tty") (i + 1) in
    let s0 : ShellSession = record empty_session {
      user = user;
      started_tick = env.now;
      last_input_tick = env.now;
      last_render_tick = env.now;
      switch_count = if i == 0 then 1 else 0;
    } in
    let s1 = session_push_line cols s0 (append_text 48 (then_text 48 tty " / ") user) in
    let s2 = session_push_line cols s1 (bytes "framebuffer shell online") in
    let s3 = session_push_line cols s2 (root_line fs) in
    let s4 =
      session_push_line cols s3 (append_text 48 (then_text 48 [] "layout ") (layout_name layout)) in
    let s5 = session_push_line cols s4 (bytes "F1-F4 switch  F10 taskman") in
    session_push_line cols s5 (bytes "type help, install, sessions or top")

-- `old` is the state before, of which the heap mark and `prompt_dirty` are kept.
unfoldable pub shell_init : Env → Fs → Keyboard → Shell → Shell
shell_init env fs keyboard old =
    let session = greeted env fs keyboard.layout in
    record old {
      sessions =
          session 0 (bytes "root")
          ∷ session 1 (bytes "dev")
          ∷ session 2 (bytes "guest")
          ∷ session 3 (bytes "ops")
          ∷ [];
      active_session = 0;
      selected_session = 0;
      view = View.session;
      installer_layout = keyboard.layout;
      snake_owner = none;
      snake_ticks = 0;
      snake_input_count = 0;
      snake_render_count = 0;
      editor_owner = none;
      browser_owner = none;
      shell_dirty = true;
    }
