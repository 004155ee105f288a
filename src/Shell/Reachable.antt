-- ===== src/Shell/Reachable.antt =====
-- Any history of keys and ticks of kernel/core/shell.c.
use flare_os.Prelude.{
  ℕ, ◌-◌, inl, inr, Bool, true, false, not, List, ◌||◌, ◌&&◌, leb, ◌==◌, if◌then◌else◌, Bool-cases,
}
use flare_os.Key
use flare_os.BlockDevice.{BlockDevice}
use flare_os.FlareFs.State.{Fs}
use flare_os.FlareFs.Ops.{fs_write_file}
use flare_os.FlareFs.Mount.{fs_install}
use flare_os.Keyboard.{Keyboard}
use flare_os.Shell.Text.{bytes}
use flare_os.Shell.State.{
  Shell, Env, System, View, Services, session_at, shell_open_switcher, shell_open_task_manager,
  snake_visible_for_active_session, editor_visible_for_active_session,
  browser_visible_for_active_session,
}
use flare_os.Shell.Files.{shell_report_root}
use flare_os.Shell.Status.{shell_report_layout, layout_name}
use flare_os.Shell.Apps.{with_shell}
use flare_os.Shell.Run.{Fate, shell_run_command}
use flare_os.Shell.Keys.{
  installed, install_system, shell_handle_installer_key, is_typed, count_key, line_key, after_enter,
  snake_key, editor_key, session_key, key_by_view, shell_keyboard_event, count_focus, tick_snake,
  shell_timer_tick,
}
use flare_os.Shell.Valid.{IsValid, put_session-IsValid, say-IsValid, set_active-IsValid}
use flare_os.Shell.Events.{taskman-IsValid, switcher-IsValid, type_key-Fits}
use flare_os.Shell.Running.{command-IsValid, consume-IsValid, cleanup-IsValid}

module _ {D W : Type 0} (dev : BlockDevice D) (services : Services W) where
  report-IsValid :
      (env : Env) (k : Keyboard) (fs : Fs) (sh : Shell) (i : ℕ)
      → IsValid sh
      → IsValid (shell_report_root env fs (shell_report_layout env k sh i) i)
  unfolding shell_report_root shell_report_layout
  report-IsValid env k fs sh i v = say-IsValid env _ i _ (say-IsValid env sh i _ v)

  installed-IsValid :
      (env : Env) (sys : System D W) (i : ℕ) (name : List ℕ)
      → IsValid sys.shell
      → IsValid (installed dev services env sys i name).shell
  unfolding installed
  installed-IsValid env sys i name v =
      elim (Bool-cases
        (not (fs_write_file dev sys.fs sys.disk (bytes "keyboard.cfg") name false).0)) [
          | inl h ↦ rw h (report-IsValid env sys.keyboard _ _ i (say-IsValid env sys.shell i _ v))
          | inr h ↦ rw h (report-IsValid env sys.keyboard _ _ i (say-IsValid env sys.shell i _ v))
        ]

  install-IsValid :
      (env : Env) (sys : System D W)
      → IsValid sys.shell
      → IsValid (install_system dev services env sys).shell
  unfolding install_system
  install-IsValid env sys v = elim (Bool-cases (fs_install dev sys.fs sys.disk).0) [
    | inl h ↦ rw h (
        installed-IsValid env _ sys.shell.active_session (layout_name sys.shell.installer_layout) v)
    | inr h ↦ rw h (say-IsValid env sys.shell sys.shell.active_session _ v)
  ]

  installer-IsValid :
      (env : Env) (sys : System D W) (key : ℕ)
      → IsValid sys.shell
      → IsValid (shell_handle_installer_key dev services env sys key).shell
  unfolding shell_handle_installer_key
  installer-IsValid env sys key v = elim (Bool-cases (key == Key.esc || key == b'q')) [
    | inl h ↦ rw h v
    | inr h ↦ elim (Bool-cases (key == b'1')) [
      | inl a ↦ rw (h, a) v
      | inr a ↦ elim (Bool-cases (key == b'2')) [
        | inl b ↦ rw (h, a, b) v
        | inr b ↦ elim (Bool-cases (key == Key.enter)) [
          | inl c ↦ rw (h, a, b, c) (install-IsValid env sys v)
          | inr c ↦ rw (h, a, b, c) v
        ]
      ]
    ]
  ]

  ran-IsValid :
      (fate : Fate) (sys : System D W)
      → IsValid sys.shell
      → IsValid (after_enter dev services fate sys).shell
  ran-IsValid Fate.returns sys v = v
  ran-IsValid Fate.halts sys v = v
  ran-IsValid Fate.faults sys v = v

  line_key-IsValid :
      (env : Env) (sys : System D W) (key : ℕ)
      → IsValid sys.shell
      → IsValid (line_key dev services env sys key).1.shell
  unfolding line_key shell_open_switcher
  line_key-IsValid env sys key v =
      let i = sys.shell.active_session in
      let s = session_at sys.shell i in
      elim (Bool-cases (key == Key.esc)) [
        | inl h ↦ rw h (v.0, v.1, v.1, v.3, v.4, v.5, v.6)
        | inr h ↦ elim (Bool-cases (key == Key.enter)) [
          | inl e ↦
              rw (h, e)
                (ran-IsValid (shell_run_command dev services env sys i).0 _
                  (command-IsValid dev services env sys i v))
          | inr e ↦ elim (Bool-cases (is_typed s key)) [
            | inl t ↦
                rw (h, e, t) (put_session-IsValid sys.shell i _ v (type_key-Fits s key (v.6 i)))
            | inr t ↦ rw (h, e, t) v
          ]
        ]
      ]

  session_key-IsValid :
      (env : Env) (sys : System D W) (key : ℕ)
      → IsValid sys.shell
      → IsValid (session_key dev services env sys key).1.shell
  unfolding session_key snake_key editor_key
  session_key-IsValid env sys key v =
      let sh = sys.shell in
      elim (Bool-cases (snake_visible_for_active_session sh sys.snake)) [
        | inl h ↦ rw h (consume-IsValid dev services env _ v)
        | inr h ↦ elim (Bool-cases (editor_visible_for_active_session sh sys.editor)) [
          | inl e ↦ rw (h, e) v
          | inr e ↦
              elim (Bool-cases
                (browser_visible_for_active_session sh (services.browser_active sys.world))) [
                  | inl b ↦ rw (h, e, b) v
                  | inr b ↦ rw (h, e, b) (line_key-IsValid env sys key v)
                ]
        ]
      ]

  by_view-IsValid :
      (env : Env) (sys : System D W) (key : ℕ) (view : View)
      → IsValid sys.shell
      → IsValid (key_by_view dev services env sys key view).1.shell
  by_view-IsValid env sys key View.switcher v = switcher-IsValid sys.shell key v
  by_view-IsValid env sys key View.taskman v = taskman-IsValid sys.shell key v
  by_view-IsValid env sys key View.installer v = installer-IsValid env sys key v
  by_view-IsValid env sys key View.session v = session_key-IsValid env sys key v

  count_key-IsValid : (env : Env) (sh : Shell) → IsValid sh → IsValid (count_key env sh)
  unfolding count_key
  count_key-IsValid env sh v = put_session-IsValid sh sh.active_session _ v (v.6 sh.active_session)

  pub key-IsValid :
      (env : Env) (sys : System D W) (key : ℕ) (pressed : Bool)
      → IsValid sys.shell
      → IsValid (shell_keyboard_event dev services env sys key pressed).1.shell
  unfolding shell_keyboard_event shell_open_task_manager
  key-IsValid env sys key pressed v =
      let counted = count_key-IsValid env sys.shell v in
      elim (Bool-cases (not pressed)) [
        | inl h ↦ rw h v
        | inr h ↦ elim (Bool-cases (leb Key.f1 key && leb key Key.f4)) [
          | inl f ↦ rw (h, f) (set_active-IsValid _ (key - Key.f1) counted)
          | inr f ↦ elim (Bool-cases (key == Key.f10)) [
            | inl t ↦ rw (h, f, t) counted
            | inr t ↦ rw (h, f, t) (by_view-IsValid env _ key _ counted)
          ]
        ]
      ]

  tick_snake-IsValid :
      (env : Env) (sys : System D W)
      → IsValid sys.shell
      → IsValid (tick_snake dev services env sys).shell
  unfolding tick_snake
  tick_snake-IsValid env sys v =
      elim (Bool-cases (snake_visible_for_active_session sys.shell sys.snake)) [
        | inl h ↦ rw h v
        | inr h ↦ rw h v
      ]

  focus-IsValid : (sh : Shell) → IsValid sh → IsValid (count_focus dev services sh)
  unfolding count_focus
  focus-IsValid sh v = put_session-IsValid sh sh.active_session _ v (v.6 sh.active_session)

  dirtied-IsValid :
      (b : Bool) (sys : System D W)
      → IsValid sys.shell
      → IsValid
          (if b then with_shell sys (record (sys.shell) { shell_dirty = true }) else sys).shell
  dirtied-IsValid true sys v = v
  dirtied-IsValid false sys v = v

  pub tick-IsValid :
      (env : Env) (sys : System D W)
      → IsValid sys.shell
      → IsValid (shell_timer_tick dev services env sys).shell
  unfolding shell_timer_tick
  tick-IsValid env sys v = dirtied-IsValid _ _ (
      consume-IsValid dev services env _
        (tick_snake-IsValid env _ (cleanup-IsValid dev services _ (focus-IsValid sys.shell v))))
