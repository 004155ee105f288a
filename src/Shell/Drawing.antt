-- ===== src/Shell/Drawing.antt =====
-- The screens of kernel/core/shell.c. What a function draws is the list of its calls of the console
-- and of the programs' own drawing, in order. Rows count from the top; the console has four rows at
-- least, so `console_height() - 4` is one.
use flare_os.Prelude.{
  ℕ, zero, suc, ◌+◌, ◌-◌, ◌*◌, ◌/◌, ◌%◌, ◌^◌, Bool, true, false, ◌&&◌, ◌||◌, List, [], ◌∷◌, ◌++◌,
  ltb, leb, ◌==◌, if◌then◌else◌, length, drop, take, min,
}
use Prim.Native.String.{String}
use flare_os.BlockDevice.{BlockDevice}
use flare_os.Snake.{snake_render}
use flare_os.Editor.{editor_active}
use flare_os.Shell.Text.{
  bytes, append_text, append_char, append_u64_dec, append_padded_text, append_u64_dec_padded,
}
use flare_os.Shell.Lines.{ShellSession, session_prompt_line}
use flare_os.Shell.State.{
  Shell, System, Env, Services, View, session_at, put_session, count_up, is_owner, is_session_view,
  ticks_to_seconds, body_rows, snake_visible_for_active_session, editor_visible_for_active_session,
  browser_visible_for_active_session,
}
use flare_os.Shell.Files.{backend_text}
use flare_os.Shell.Status.{layout_name, then_text}
use flare_os.Shell.Apps.{with_shell}

pub data Draw : Type 0 where
  clear : (attr : ℕ) → Draw
  fill_row : (row attr : ℕ) → Draw
  write_at : (x row attr : ℕ) → List ℕ → Draw
  set_cursor : (x row : ℕ) → Draw
  snake editor browser : Draw

abbrev shown_by : View → Bool → String → String
shown_by view is_active label = if is_session_view view && is_active then label else "hold"

abbrev free_label : View → Bool → String
free_label view false = "bg"
free_label View.taskman true = "top"
free_label View.switcher true = "pick"
free_label View.session true = "fg"
free_label View.installer true = "fg"

-- The console's bottom row, and the row `n` above it.
abbrev pub row_above : Env → ℕ → ℕ
row_above env n = env.console_height - (n + 1)

unfoldable pub build_bar : ℕ → ℕ → ℕ → ℕ → List ℕ
build_bar size used total width =
    let share = used * width % 2 ^ 64 / total % 2 ^ 32 in
    let fill = if total == 0 || leb (2 ^ 31) share then 0 else min share width in
    append_char size (cells size (append_char size [] b'[') 0 fill width) b']'
  where
    cells : ℕ → List ℕ → ℕ → ℕ → ℕ → List ℕ
    cells size buffer i fill zero = buffer
    cells size buffer i fill (suc left) =
        cells size (append_char size buffer (if ltb i fill then b'#' else b'.')) (i + 1) fill left

-- One row of the table of tasks; `ticks` is a u64 and the counters are u32.
unfoldable pub shell_render_task_row :
    (row pid : ℕ) (user : List ℕ) (kind state : String) (ticks inputs commands renders attr : ℕ)
    → Draw
shell_render_task_row row pid user kind state ticks inputs commands renders attr =
    let a = append_char 64 (append_u64_dec_padded 64 [] pid 3) b' ' in
    let b = append_char 64 (append_padded_text 64 a user 4) b' ' in
    let c = append_char 64 (append_padded_text 64 b (bytes kind) 3) b' ' in
    let d = append_char 64 (append_padded_text 64 c (bytes state) 4) b' ' in
    let e = append_char 64 (append_u64_dec_padded 64 d ticks 5) b' ' in
    let f = append_char 64 (append_u64_dec_padded 64 e inputs 3) b' ' in
    let g = append_char 64 (append_u64_dec_padded 64 f commands 3) b' ' in
    Draw.write_at 1 row attr (append_u64_dec_padded 64 g renders 3)

-- The rows of the lines, from the given row on.
unfoldable pub line_rows : ℕ → List (List ℕ) → List Draw
line_rows row [] = []
line_rows row (line ∷ lines) =
    Draw.fill_row row 0x01 ∷ Draw.write_at 1 row 0x0f line ∷ line_rows (row + 1) lines

abbrev prompt_row : Env → List ℕ → List Draw
prompt_row env prompt =
    Draw.write_at 0 (row_above env 0) 0x0f prompt
    ∷ Draw.set_cursor (length prompt) (row_above env 0)
    ∷ []

abbrev header : Shell → List ℕ
header sh =
    let tty = append_u64_dec 64 (then_text 64 [] "flareOS / tty") (sh.active_session + 1) in
    append_text 64 (then_text 64 tty " / ") (session_at sh sh.active_session).user

-- The counters after a session was drawn.
unfoldable pub drawn : Env → Shell → Shell
drawn env sh =
    let s = session_at sh sh.active_session in
    let counted : ShellSession = record s {
      render_count = count_up s.render_count;
      last_render_tick = env.now;
    } in
    record (put_session sh sh.active_session counted) { shell_dirty = false }

-- The last lines of a session that fit the screen.
unfoldable pub visible_lines : Env → ShellSession → List (List ℕ)
visible_lines env s =
    let start = length s.lines - body_rows env in take (body_rows env) (drop start s.lines)

module _ {D W : Type 0} (dev : BlockDevice D) (services : Services W) where
  unfoldable pub session_state_label : System D W → ℕ → String
  session_state_label sys index =
      let sh = sys.shell in
      let is_active = sh.active_session == index in
      if sys.snake.active && is_owner sh.snake_owner index
      then shown_by sh.view is_active "snk"
      else if editor_active sys.editor && is_owner sh.editor_owner index
      then shown_by sh.view is_active "edt"
      else if services.browser_active sys.world && is_owner sh.browser_owner index
      then shown_by sh.view is_active "brw"
      else free_label sh.view is_active

  abbrev status_line : System D W → List ℕ
  status_line sys =
      let keys = then_text 128 [] "F1-F4 tty  F10 top  esc pick  " in
      let root = append_char 128 (append_text 128 keys (backend_text sys.fs.backend)) b' ' in
      let mode =
        append_char 128 (then_text 128 root (if sys.fs.writable then "rw" else "ro")) b' ' in
      append_text 128 mode (layout_name sys.keyboard.layout)

  abbrev lines_view : Env → System D W → List Draw
  lines_view env sys =
      let sh = sys.shell in
      let s = session_at sh sh.active_session in
      Draw.clear 0x01
      ∷ Draw.fill_row 0 0x1f
      ∷ Draw.fill_row 1 0x87
      ∷ Draw.fill_row (row_above env 0) 0x08
      ∷ Draw.write_at 1 0 0x1f (header sh)
      ∷ Draw.write_at 1 1 0x87 (status_line sys)
      ∷ (line_rows 2 (visible_lines env s)
          ++ prompt_row env (session_prompt_line s sh.active_session 100))

  unfoldable pub shell_render_session_view : Env → System D W → List Draw × System D W
  shell_render_session_view env sys =
      let sh = sys.shell in
      let done_ = drawn env sh in
      if snake_visible_for_active_session sh sys.snake
      then (
        Draw.snake ∷ [],
        record sys {
          snake = snake_render sys.snake;
          shell = record done_ { snake_render_count = count_up sh.snake_render_count };
        },
      )
      else if editor_visible_for_active_session sh sys.editor
      then (Draw.editor ∷ [], with_shell sys done_)
      else if browser_visible_for_active_session sh (services.browser_active sys.world)
      then (Draw.browser ∷ [], with_shell sys done_)
      else (lines_view env sys, with_shell sys done_)

  abbrev switcher_lines : Env → System D W → ℕ → ShellSession → List Draw
  switcher_lines env sys i s =
      let sh = sys.shell in
      let row = 3 + i * 4 in
      let picked = i == sh.selected_session in
      let tty = append_char 96 (append_u64_dec 96 (then_text 96 [] "tty") (i + 1)) b' ' in
      let named = then_text 96 (append_text 96 tty s.user) "  " in
      let labelled = then_text 96 named (session_state_label sys i) in
      let a = append_u64_dec 96 (then_text 96 [] "cmd=") s.command_count in
      let b = append_u64_dec 96 (then_text 96 a " key=") s.key_count in
      let c = append_u64_dec 96 (then_text 96 b " draw=") s.render_count in
      let idle = (env.now + 2 ^ 64 - s.last_input_tick) % 2 ^ 64 in
      let f = append_u64_dec 96 (then_text 96 [] "focus=") (ticks_to_seconds env s.focus_ticks) in
      let g = append_u64_dec 96 (then_text 96 f "s last=") (ticks_to_seconds env idle) in
      let h = append_u64_dec 96 (then_text 96 g "s sw=") s.switch_count in
      Draw.fill_row row (if picked then 0x10 else 0x01)
      ∷ Draw.fill_row (row + 1) 0x01
      ∷ Draw.fill_row (row + 2) 0x01
      ∷ Draw.write_at 1 row (if picked then 0x1e else 0x0f)
          (if i == sh.active_session then then_text 96 labelled "  current" else labelled)
      ∷ Draw.write_at 2 (row + 1) 0x07 c
      ∷ Draw.write_at 2 (row + 2) 0x07 h
      ∷ []

  abbrev switcher_rows : Env → System D W → ℕ → List ShellSession → List Draw
  switcher_rows env sys i [] = []
  switcher_rows env sys i (s ∷ sessions) =
      switcher_lines env sys i s ++ switcher_rows env sys (i + 1) sessions

  unfoldable pub shell_render_switcher : Env → System D W → List Draw × System D W
  shell_render_switcher env sys = (
    Draw.clear 0x01
        ∷ Draw.fill_row 0 0x1f
        ∷ Draw.fill_row 1 0x87
        ∷ Draw.write_at 1 0 0x1f (bytes "flareOS / session switcher")
        ∷ Draw.write_at 1 1 0x87 (bytes "1-4 jump  enter attach  q back")
        ∷ switcher_rows env sys 0 sys.shell.sessions,
    with_shell sys (record (sys.shell) { shell_dirty = false }),
  )

  unfoldable pub shell_render_installer : System D W → List Draw × System D W
  shell_render_installer sys =
      let source = append_text 96 (then_text 96 [] "source ") (backend_text sys.fs.backend) in
      let region = then_text 96 [] "target flarefs rw on disk region " in
      (
        Draw.clear 0x01
            ∷ Draw.fill_row 0 0x1f
            ∷ Draw.fill_row 1 0x87
            ∷ Draw.write_at 1 0 0x1f (bytes "flareOS / installer")
            ∷ Draw.write_at 1 1 0x87 (bytes "1 qwerty  2 azerty  enter install  q back")
            ∷ Draw.write_at 2 4 0x0f (
                append_text 96 (then_text 96 [] "keyboard ")
                  (layout_name sys.shell.installer_layout))
            ∷ Draw.write_at 2 6 0x0f (
                then_text 96 (then_text 96 [] "disk ")
                  (if dev.present sys.disk then "ata primary master online" else "no ata disk"))
            ∷ Draw.write_at 2 8 0x0f
                (append_u64_dec 96 (then_text 96 source " files=") (length sys.fs.files))
            ∷ Draw.write_at 2 10 0x0f (append_u64_dec 96 region 321)
            ∷ Draw.write_at 2 13 0x0f (bytes "installer writes the current root into flarefs")
            ∷ Draw.write_at 2 15 0x0f
                (bytes "serial logs stay on com1 while graphics use framebuffer")
            ∷ [],
        with_shell sys (record (sys.shell) { shell_dirty = false }),
      )

  unfoldable pub shell_update_prompt : Env → System D W → List Draw × System D W
  shell_update_prompt env sys =
      let sh = sys.shell in
      let s = session_at sh sh.active_session in
      let counted : ShellSession = record s { render_count = count_up s.render_count } in
      (
        Draw.fill_row (row_above env 0) 0x01
            ∷ prompt_row env (session_prompt_line s sh.active_session 100),
        with_shell sys (record (put_session sh sh.active_session counted) { prompt_dirty = false }),
      )
