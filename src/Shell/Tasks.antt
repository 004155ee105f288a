-- ===== src/Shell/Tasks.antt =====
-- The task manager of kernel/core/shell.c, and the choice of the screen that is drawn.
use flare_os.Prelude.{
  ℕ, zero, suc, ◌+◌, ◌-◌, Bool, false, not, ◌&&◌, List, [], ◌∷◌, ◌++◌, Option, none, some, ltb,
  ◌==◌, if◌then◌else◌, length,
}
use Prim.Native.String.{String}
use flare_os.BlockDevice.{BlockDevice}
use flare_os.Memory.{heap_bytes_used}
use flare_os.Editor.{editor_active}
use flare_os.Shell.Text.{bytes, append_text, append_u64_dec}
use flare_os.Shell.Lines.{ShellSession}
use flare_os.Shell.State.{
  Shell, System, Env, Services, View, session_at, session_count, is_session_view, ticks_to_seconds,
  ram_mebibytes,
}
use flare_os.Shell.Status.{then_text}
use flare_os.Shell.Apps.{with_shell}
use flare_os.Shell.Drawing.{
  Draw, row_above, build_bar, shell_render_task_row, session_state_label, shell_render_session_view,
  shell_render_switcher, shell_render_installer, shell_update_prompt,
}

-- A program is listed if it runs, has an owner and finds a row.
abbrev app_row :
    Env → Shell → Bool → Option ℕ → ℕ → ℕ → String → (ticks inputs renders attr : ℕ) → List Draw
app_row env sh active none row first kind ticks inputs renders attr = []
app_row env sh active (some owner) row first kind ticks inputs renders attr =
    let state = if is_session_view sh.view && (sh.active_session == owner) then "run" else "hold" in
    if active && (ltb owner session_count && ltb row (env.console_height - 4))
    then shell_render_task_row row (first + owner + 1) (session_at sh owner).user kind state ticks
        inputs 0 renders attr
      ∷ []
    else []

unfoldable pub blank_rows : ℕ → ℕ → List Draw
blank_rows row zero = []
blank_rows row (suc left) = Draw.fill_row row 0x01 ∷ blank_rows (row + 1) left

abbrev bar_row : Env → ℕ → String → ℕ → ℕ → List Draw
bar_row env above label used total =
    let bar = build_bar 32 used total (env.console_width - 6) in
    Draw.fill_row (row_above env above) 0x08
    ∷ Draw.write_at 1 (row_above env above) 0x0f (append_text 96 (then_text 96 [] label) bar)
    ∷ []

abbrev some_total : ℕ → ℕ
some_total total = if total == 0 then 1 else total

module _ {D W : Type 0} (dev : BlockDevice D) (services : Services W) where
  abbrev task_rows : System D W → ℕ → List ShellSession → List Draw
  task_rows sys i [] = []
  task_rows sys i (s ∷ sessions) =
      shell_render_task_row (5 + i) (i + 1) s.user "sh" (session_state_label dev services sys i)
        s.focus_ticks s.key_count s.command_count s.render_count
        (if i == sys.shell.active_session then 0x0e else 0x0f)
      ∷ task_rows sys (i + 1) sessions

  abbrev app_rows : Env → System D W → List Draw
  app_rows env sys =
      let sh = sys.shell in
      let row = 5 + length sh.sessions in
      let snake =
        app_row env sh sys.snake.active sh.snake_owner row 40 "snk" sh.snake_ticks
          sh.snake_input_count sh.snake_render_count 0x0a in
      let row1 = row + length snake in
      let editor =
        app_row env sh (editor_active sys.editor) sh.editor_owner row1 50 "edt" 0 0 0 0x0b in
      let row2 = row1 + length editor in
      let browser =
        app_row env sh (services.browser_active sys.world) sh.browser_owner row2 60 "brw" 0 0 0
          0x0d in
      let row3 = row2 + length browser in
      snake ++ (editor ++ (browser ++ blank_rows row3 (env.console_height - 4 - row3)))

  abbrev bar_rows : Env → System D W → List Draw
  bar_rows env sys =
      let total = env.total_memory in
      let used = heap_bytes_used sys.heap in
      let focus = (session_at sys.shell sys.shell.active_session).focus_ticks in
      bar_row env 3 "mem " (if total == 0 then 0 else used) (some_total total)
      ++ (bar_row env 2 "map " (if total == 0 then 0 else env.mapped_bytes) (some_total total)
          ++ bar_row env 1 "cpu " focus (some_total env.now))

  abbrev sums_line : Env → System D W → List ℕ
  sums_line env sys =
      let a = append_u64_dec 96 (then_text 96 [] "up ") (ticks_to_seconds env env.now) in
      let b =
        append_u64_dec 96 (then_text 96 a "s  heap ") (ram_mebibytes (heap_bytes_used sys.heap)) in
      let c = append_u64_dec 96 (then_text 96 b "M / ") (ram_mebibytes env.total_memory) in
      append_u64_dec 96 (then_text 96 c "M  pg ") env.table_count

  unfoldable pub shell_render_task_manager : Env → System D W → List Draw × System D W
  shell_render_task_manager env sys =
      let sh = sys.shell in
      let tty = append_u64_dec 96 (then_text 96 [] "tty") (sh.active_session + 1) in
      let named = append_text 96 (then_text 96 tty " ") (session_at sh sh.active_session).user in
      (
        Draw.clear 0x01
            ∷ Draw.fill_row 0 0x1f
            ∷ Draw.write_at 1 0 0x1f (bytes "flareOS / task manager")
            ∷ Draw.fill_row 1 0x87
            ∷ Draw.write_at 1 1 0x87 (then_text 96 named "  q/esc back  F1-F4 switch  F10 refresh")
            ∷ Draw.write_at 1 2 0x0f (bytes " PID  USER   CMD  STATE     TICKS  INPUT  CMDS  RDR  ")
            ∷ Draw.write_at 1 3 0x08 (bytes " ---- ------ ---- ------ -------- ------ ----- ---- ")
            ∷ shell_render_task_row 4 0 (bytes "sys") "krn" "run" env.now 0 0 0 0x0f
            ∷ (task_rows sys 0 sh.sessions
                ++ (app_rows env sys
                    ++ (bar_rows env sys
                        ++ (Draw.fill_row (row_above env 0) 0x08
                            ∷ Draw.write_at 1 (row_above env 0) 0x0f (sums_line env sys)
                            ∷ [])))),
        with_shell sys (record sh { shell_dirty = false }),
      )

  abbrev pub render_view : Env → System D W → View → List Draw × System D W
  render_view env sys View.switcher = shell_render_switcher dev services env sys
  render_view env sys View.taskman = shell_render_task_manager env sys
  render_view env sys View.installer = shell_render_installer dev services sys
  render_view env sys View.session = shell_render_session_view dev services env sys

  unfoldable pub shell_render : Env → System D W → List Draw × System D W
  shell_render env sys =
      let sh = sys.shell in
      if sh.prompt_dirty && not sh.shell_dirty
      then shell_update_prompt dev services env sys
      else render_view env (with_shell sys (record sh { prompt_dirty = false })) sh.view
