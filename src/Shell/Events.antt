-- ===== src/Shell/Events.antt =====
-- The keys of the views of kernel/core/shell.c, and its commands, keep its variables valid.
use flare_os.Prelude.{
  ℕ, ◌+◌, ◌-◌, ◌%◌, ◌<◌, inl, inr, List, [], ◌∷◌, Option, ◌||◌, ◌&&◌, none, some, arith, ltb, leb,
  ◌==◌, if◌then◌else◌, length, length-take, length-append, Bool-cases, Option-cases,
}
use flare_os.Key
use flare_os.FlareFs.State.{Fs}
use flare_os.FlareFs.Lookup.{lookup}
use flare_os.BlockDevice.{BlockDevice}
use flare_os.Shell.Text.{bytes}
use flare_os.Shell.Lines.{ShellSession}
use flare_os.Shell.State.{
  Shell, Env, System, Services, say, shell_set_active_session, session_count, shell_open_switcher,
  shell_open_task_manager, shell_open_installer,
}
use flare_os.Shell.Words.{Command, session_index_from_target}
use flare_os.Shell.Files.{shell_report_root, shell_list_files, shell_cat_file, cat_lines}
use flare_os.Shell.Status.{
  shell_report_layout, shell_print_uptime, shell_print_memory, shell_print_uname,
  shell_print_paging, shell_list_users, shell_net_status,
}
use flare_os.Shell.Keys.{shell_handle_taskman_key, shell_handle_switcher_key, type_key}
use flare_os.Shell.Run.{show, clear_lines}
use flare_os.Shell.Valid.{
  SessionFits, IsValid, set_active-IsValid, put_session-IsValid, say-IsValid, say_all-IsValid,
}

pub taskman-IsValid :
    (sh : Shell) (key : ℕ) → IsValid sh → IsValid (shell_handle_taskman_key sh key)
unfolding shell_handle_taskman_key
taskman-IsValid sh key v = elim (Bool-cases (key == Key.esc || key == b'q')) [
  | inl h ↦ rw h v
  | inr h ↦ elim (Bool-cases (leb b'1' key && ltb key (b'1' + session_count))) [
    | inl k ↦ rw (h, k) (set_active-IsValid sh (key - b'1') v)
    | inr k ↦ rw (h, k) v
  ]
]

pub switcher-IsValid :
    (sh : Shell) (key : ℕ) → IsValid sh → IsValid (shell_handle_switcher_key sh key)
unfolding shell_handle_switcher_key
switcher-IsValid sh key v =
    let n = sh.selected_session in
    let above : (n + 1) % session_count < 4 = omega arith in
    let below : (if ltb 0 n then n - 1 else session_count - 1) < 4 = ground (arith, v.2) in
    elim (Bool-cases (key == Key.esc || key == b'q')) [
      | inl h ↦ rw h v
      | inr h ↦ elim (Bool-cases (key == b'w' || key == b'k')) [
        | inl up ↦ rw (h, up) (v.0, v.1, below, v.3, v.4, v.5, v.6)
        | inr up ↦ elim (Bool-cases (key == b's' || key == b'j')) [
          | inl down ↦ rw (h, up, down) (v.0, v.1, above, v.3, v.4, v.5, v.6)
          | inr down ↦ elim (Bool-cases (leb b'1' key && ltb key (b'1' + session_count))) [
            | inl k ↦ rw (h, up, down, k) (set_active-IsValid sh (key - b'1') v)
            | inr k ↦ elim (Bool-cases (key == Key.enter || key == b' ')) [
              | inl go ↦ rw (h, up, down, k, go) (set_active-IsValid sh n v)
              | inr go ↦ rw (h, up, down, k, go) v
            ]
          ]
        ]
      ]
    ]

pub type_key-Fits : (s : ShellSession) (key : ℕ) → SessionFits s → SessionFits (type_key s key)
unfolding type_key
type_key-Fits s key v = elim (Bool-cases (key == Key.backspace)) [
  | inl h ↦ rw h (v.0, omega (arith, v.1, length-take (length s.input - 1) s.input))
  | inr h ↦ elim (Bool-cases (leb b' ' key && (leb key b'~' && ltb (length s.input + 1) 80))) [
    | inl k ↦ rw (h, k) (v.0, ground (arith, k, length-append s.input (key ∷ [])))
    | inr k ↦ rw (h, k) v
  ]
]

cat-IsValid :
    (env : Env) (fs : Fs) (sh : Shell) (i : ℕ) (name : List ℕ)
    → IsValid sh
    → IsValid (shell_cat_file env fs sh i name)
unfolding shell_cat_file
cat-IsValid env fs sh i name v = elim (Option-cases (lookup name fs.files)) [
  | inl h ↦ rw (h, shell_cat_file) (say-IsValid env sh i (bytes "file not found") v)
  | inr (content, h) ↦ rw (h, shell_cat_file) (say_all-IsValid env sh i (cat_lines content) v)
]

list-IsValid :
    (env : Env) (fs : Fs) (sh : Shell) (i : ℕ) → IsValid sh → IsValid (shell_list_files env fs sh i)
unfolding shell_list_files
list-IsValid env fs sh i v = elim (Bool-cases (length fs.files == 0)) [
  | inl h ↦ rw h (say-IsValid env sh i (bytes "no files") v)
  | inr h ↦ rw h (say_all-IsValid env sh i _ v)
]

switch-IsValid :
    (env : Env) (sh : Shell) (i : ℕ) (target : Option ℕ)
    → IsValid sh
    → IsValid (elim target [
      | none ↦ say env sh i (bytes "session not found")
      | some t ↦ shell_set_active_session sh t
    ])
switch-IsValid env sh i none v = say-IsValid env sh i (bytes "session not found") v
switch-IsValid env sh i (some t) v = set_active-IsValid sh t v

module _ {D W : Type 0} (dev : BlockDevice D) (services : Services W) where
  net-IsValid :
      (env : Env) (w : W) (sh : Shell) (i : ℕ)
      → IsValid sh
      → IsValid (shell_net_status services env w sh i)
  unfolding shell_net_status
  net-IsValid env w sh i v = elim (Bool-cases (services.net_is_ready w)) [
    | inl h ↦ rw h (say_all-IsValid env sh i _ v)
    | inr h ↦ rw h (say-IsValid env sh i (bytes "net: offline") v)
  ]

  pub show-IsValid :
      (env : Env) (sys : System D W) (i : ℕ) (c : Command)
      → IsValid sys.shell
      → IsValid (show dev services env sys i c)
  unfolding show shell_print_uname shell_print_uptime shell_print_memory shell_print_paging
      shell_list_users shell_report_root shell_report_layout clear_lines shell_open_installer
      shell_open_switcher shell_open_task_manager
  show-IsValid env sys i Command.help v = say_all-IsValid env sys.shell i _ v
  show-IsValid env sys i Command.clear v =
      put_session-IsValid sys.shell i _ v (omega arith, (v.6 i).1)
  show-IsValid env sys i Command.ls v = list-IsValid env sys.fs sys.shell i v
  show-IsValid env sys i Command.pwd v = say-IsValid env sys.shell i _ v
  show-IsValid env sys i Command.uname v = say-IsValid env sys.shell i _ v
  show-IsValid env sys i Command.whoami v = say-IsValid env sys.shell i _ v
  show-IsValid env sys i Command.users v = say_all-IsValid env sys.shell i _ v
  show-IsValid env sys i Command.root v = say-IsValid env sys.shell i _ v
  show-IsValid env sys i Command.uptime v = say-IsValid env sys.shell i _ v
  show-IsValid env sys i Command.mem v = say-IsValid env sys.shell i _ v
  show-IsValid env sys i Command.paging v = say-IsValid env sys.shell i _ v
  show-IsValid env sys i Command.show_layout v = say-IsValid env sys.shell i _ v
  show-IsValid env sys i Command.install v = v
  show-IsValid env sys i Command.open_switcher v = (v.0, v.1, v.1, v.3, v.4, v.5, v.6)
  show-IsValid env sys i Command.open_top v = v
  show-IsValid env sys i Command.net v = net-IsValid env sys.world sys.shell i v
  show-IsValid env sys i (Command.echo text) v = say-IsValid env sys.shell i text v
  show-IsValid env sys i (Command.cat name) v = cat-IsValid env sys.fs sys.shell i name v
  show-IsValid env sys i (Command.switch_to target) v =
      switch-IsValid env sys.shell i (session_index_from_target sys.shell.sessions target) v
  show-IsValid env sys i Command.unknown v = say-IsValid env sys.shell i _ v
  show-IsValid env sys i _ v = v
