-- ===== src/Shell/Redrawing.antt =====
-- What is left to draw after kernel/core/shell.c has drawn the screen.
use flare_os.Prelude.{
  ◌-◌, ◌≡◌, refl, false, not, ◌&&◌, inl, inr, arith, length, drop, Bool-cases, take-all,
  length-drop,
}
use flare_os.BlockDevice.{BlockDevice}
use flare_os.Shell.Lines.{ShellSession}
use flare_os.Shell.State.{
  Shell, System, Env, Services, View, put_session, body_rows, snake_visible_for_active_session,
  editor_visible_for_active_session, browser_visible_for_active_session,
}
use flare_os.Shell.Drawing.{
  drawn, visible_lines, shell_render_session_view, shell_render_switcher, shell_render_installer,
  shell_update_prompt,
}
use flare_os.Shell.Tasks.{render_view, shell_render, shell_render_task_manager}

-- The lines that are drawn are the last ones of the session.
pub visible_lines-last :
    (env : Env) (s : ShellSession)
    → visible_lines env s ≡ drop (length s.lines - body_rows env) s.lines
unfolding visible_lines
visible_lines-last env s =
    take-all (body_rows env) (drop (length s.lines - body_rows env) s.lines)
      (omega (arith, length-drop (length s.lines - body_rows env) s.lines))

-- Nothing of the shell itself is left to draw.
abbrev pub Clean : Shell → Type 0
Clean sh = (sh.shell_dirty ≡ false) × (sh.prompt_dirty ≡ false)

module _ {D W : Type 0} (dev : BlockDevice D) (services : Services W) where
  session_view-Clean :
      (env : Env) (sys : System D W)
      → sys.shell.prompt_dirty ≡ false
      → Clean (shell_render_session_view dev services env sys).1.shell
  unfolding shell_render_session_view drawn put_session
  session_view-Clean env sys p =
      elim (Bool-cases (snake_visible_for_active_session sys.shell sys.snake)) [
        | inl h ↦ rw h (refl, p)
        | inr h ↦ elim (Bool-cases (editor_visible_for_active_session sys.shell sys.editor)) [
          | inl e ↦ rw (h, e) (refl, p)
          | inr e ↦
              elim (Bool-cases (
                browser_visible_for_active_session sys.shell (services.browser_active sys.world))) [
                  | inl b ↦ rw (h, e, b) (refl, p)
                  | inr b ↦ rw (h, e, b) (refl, p)
                ]
        ]
      ]

  view-Clean :
      (env : Env) (sys : System D W) (view : View)
      → sys.shell.prompt_dirty ≡ false
      → Clean (render_view dev services env sys view).1.shell
  unfolding shell_render_switcher shell_render_task_manager shell_render_installer
  view-Clean env sys View.switcher p = (refl, p)
  view-Clean env sys View.taskman p = (refl, p)
  view-Clean env sys View.installer p = (refl, p)
  view-Clean env sys View.session p = session_view-Clean env sys p

  -- After the screen was drawn, in any view, neither the screen nor the prompt is marked as to be drawn.
  pub shell_render-Clean :
      (env : Env) (sys : System D W) → Clean (shell_render dev services env sys).1.shell
  unfolding shell_render shell_update_prompt put_session
  shell_render-Clean env sys =
      elim (Bool-cases (sys.shell.prompt_dirty && not sys.shell.shell_dirty)) [
        | inl h ↦ rw h (ground (arith, h), refl)
        | inr h ↦ rw h (view-Clean env _ sys.shell.view refl)
      ]
