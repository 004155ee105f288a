-- ===== src/Shell/Running.antt =====
-- A command line of kernel/core/shell.c, and the end of a program, keep its variables valid.
use flare_os.Prelude.{
  ℕ, inl, inr, not, List, [], Option, ◌&&◌, none, some, arith, leb, ◌==◌, length, Bool-cases,
}
use flare_os.BlockDevice.{BlockDevice}
use flare_os.Snake.{snake_consume_result}
use flare_os.Editor.{editor_active}
use flare_os.Shell.State.{Shell, Env, System, Services, say, session_at, session_count}
use flare_os.Shell.Text.{append_u64_dec}
use flare_os.Shell.Status.{then_text}
use flare_os.Shell.Apps.{
  report_score, shell_consume_snake_result, shell_cleanup_exited_apps, is_some, exited_snake,
  exited_editor, exited_browser,
}
use flare_os.Shell.Run.{Fate, clear_input, entered, show_line, after_command, shell_run_command}
use flare_os.Shell.Valid.{IsValid, put_session-IsValid, say-IsValid}
use flare_os.Shell.Commands.{execute-IsValid}

report_score-IsValid :
    (env : Env) (sh : Shell) (owner result : Option ℕ)
    → IsValid sh
    → IsValid (report_score env sh owner result)
report_score-IsValid env sh owner none v = v
report_score-IsValid env sh none (some score) v = v
report_score-IsValid env sh (some owner) (some score) v =
    elim (Bool-cases (leb session_count owner)) [
      | inl h ↦ rw h v
      | inr h ↦
          let said =
            say-IsValid env sh owner (append_u64_dec 64 (then_text 64 [] "snake score ") score) v in
          rw h (said.0, said.1, said.2, omega arith, said.4, said.5, said.6)
    ]

module _ {D W : Type 0} (dev : BlockDevice D) (services : Services W) where
  entered-IsValid :
      (env : Env) (sys : System D W) (i : ℕ) (line : List ℕ)
      → IsValid sys.shell
      → IsValid (entered dev services env sys i line).shell
  entered-IsValid env sys i line v =
      let said = say-IsValid env sys.shell i line v in
      put_session-IsValid (say env sys.shell i line) i _ said (said.6 i)

  clear_input-IsValid : (sh : Shell) (i : ℕ) → IsValid sh → IsValid (clear_input dev services sh i)
  unfolding clear_input
  clear_input-IsValid sh i v = put_session-IsValid sh i _ v ((v.6 i).0, omega arith)

  show_line-IsValid :
      (env : Env) (sys : System D W) (i : ℕ) (line : List ℕ)
      → IsValid sys.shell
      → IsValid (show_line dev services env sys i line).shell
  unfolding show_line
  show_line-IsValid env sys i line v = elim (Bool-cases (length line == 0)) [
    | inl h ↦ rw h v
    | inr h ↦ rw h (entered-IsValid env sys i line v)
  ]

  after_command-IsValid :
      (i : ℕ) (fate : Fate) (sys : System D W)
      → IsValid sys.shell
      → IsValid (after_command dev services i fate sys).1.shell
  after_command-IsValid i Fate.returns sys v = clear_input-IsValid sys.shell i v
  after_command-IsValid i Fate.halts sys v = v
  after_command-IsValid i Fate.faults sys v = v

  pub command-IsValid :
      (env : Env) (sys : System D W) (i : ℕ)
      → IsValid sys.shell
      → IsValid (shell_run_command dev services env sys i).1.shell
  unfolding shell_run_command
  command-IsValid env sys i v = after_command-IsValid i _ _ (
      execute-IsValid dev services env _ i _
        (show_line-IsValid env sys i (session_at sys.shell i).input v))

  pub consume-IsValid :
      (env : Env) (sys : System D W)
      → IsValid sys.shell
      → IsValid (shell_consume_snake_result env sys).shell
  unfolding shell_consume_snake_result
  consume-IsValid env sys v =
      report_score-IsValid env sys.shell sys.shell.snake_owner (snake_consume_result sys.snake).0 v

  exited_snake-IsValid :
      (sys : System D W) → IsValid sys.shell → IsValid (exited_snake services sys).shell
  exited_snake-IsValid sys v =
      elim (Bool-cases (is_some sys.shell.snake_owner && not sys.snake.active)) [
        | inl h ↦ rw h (v.0, v.1, v.2, omega arith, v.4, v.5, v.6)
        | inr h ↦ rw h v
      ]

  exited_editor-IsValid :
      (sys : System D W) → IsValid sys.shell → IsValid (exited_editor services sys).shell
  exited_editor-IsValid sys v =
      elim (Bool-cases (is_some sys.shell.editor_owner && not (editor_active sys.editor))) [
        | inl h ↦ rw h (v.0, v.1, v.2, v.3, omega arith, v.5, v.6)
        | inr h ↦ rw h v
      ]

  exited_browser-IsValid :
      (sys : System D W) → IsValid sys.shell → IsValid (exited_browser services sys).shell
  exited_browser-IsValid sys v =
      elim (Bool-cases
        (is_some sys.shell.browser_owner && not (services.browser_active sys.world))) [
          | inl h ↦ rw h (v.0, v.1, v.2, v.3, v.4, omega arith, v.6)
          | inr h ↦ rw h v
        ]

  pub cleanup-IsValid :
      (sys : System D W)
      → IsValid sys.shell
      → IsValid (shell_cleanup_exited_apps services sys).shell
  unfolding shell_cleanup_exited_apps
  cleanup-IsValid sys v =
      exited_browser-IsValid _ (exited_editor-IsValid _ (exited_snake-IsValid sys v))
