-- ===== src/Shell/Commands.antt =====
-- The commands of kernel/core/shell.c that change more than the shell keep its variables valid.
use flare_os.Prelude.{
  ℕ, inl, inr, Bool, true, false, not, List, [], ◌&&◌, none, arith, ltb, ◌==◌, length, Bool-cases,
  Option-cases,
}
use flare_os.FlareFs.State.{Fs}
use flare_os.FlareFs.Ops.{same_text, fs_write_file, fs_remove_file}
use flare_os.BlockDevice.{BlockDevice}
use flare_os.Keyboard.{Keyboard}
use flare_os.Shell.Text.{bytes}
use flare_os.Shell.State.{Shell, Env, System, Services, current_session_has_app, is_owner}
use flare_os.Shell.Words.{Command, skip_spaces, token_end, copy_token, drop_prefix}
use flare_os.Shell.Files.{shell_write_file_command, shell_remove_file_command}
use flare_os.Shell.Status.{shell_report_layout, shell_set_layout_command}
use flare_os.Shell.Text.{append_u64_dec}
use flare_os.Shell.Status.{then_text}
use flare_os.Shell.Curl.{response_name, Options, shell_curl, curl_result, curl_flags, fetch}
use flare_os.Shell.Apps.{
  shell_launch_snake, shell_launch_editor, shell_launch_browser, snake_min_ram_bytes,
}
use flare_os.Shell.Run.{execute}
use flare_os.Shell.Valid.{IsValid, say-IsValid, say_all-IsValid}
use flare_os.Shell.Events.{show-IsValid}

layout-IsValid :
    (env : Env) (k : Keyboard) (sh : Shell) (i : ℕ) (name : List ℕ)
    → IsValid sh
    → IsValid (shell_set_layout_command env k sh i name).0
unfolding shell_set_layout_command shell_report_layout
layout-IsValid env k sh i name v = elim (Bool-cases (same_text name (bytes "azerty"))) [
  | inl h ↦ rw h (say-IsValid env _ i _ v)
  | inr h ↦ elim (Bool-cases (same_text name (bytes "qwerty"))) [
    | inl g ↦ rw (h, g) (say-IsValid env _ i _ v)
    | inr g ↦ rw (h, g) (say-IsValid env sh i _ v)
  ]
]

module _ {D W : Type 0} (dev : BlockDevice D) (services : Services W) where
  write-IsValid :
      (env : Env) (fs : Fs) (d : D) (sh : Shell) (i : ℕ) (args : List ℕ) (append : Bool)
      → IsValid sh
      → IsValid (shell_write_file_command dev env fs d sh i args append).0
  unfolding shell_write_file_command
  write-IsValid env fs d sh i args append v = elim (Bool-cases (not fs.writable)) [
    | inl h ↦ rw h (say-IsValid env sh i _ v)
    | inr h ↦ elim (Option-cases (copy_token (skip_spaces args) 48)) [
      | inl g ↦ rw (h, g) (say-IsValid env sh i _ v)
      | inr (name, g) ↦
          elim (Bool-cases
            (fs_write_file dev fs d name (skip_spaces (token_end (skip_spaces args))) append).0) [
              | inl ok ↦ rw (h, g, ok) (say-IsValid env sh i _ v)
              | inr ok ↦ rw (h, g, ok) (say-IsValid env sh i _ v)
            ]
    ]
  ]

  remove-IsValid :
      (env : Env) (fs : Fs) (d : D) (sh : Shell) (i : ℕ) (args : List ℕ)
      → IsValid sh
      → IsValid (shell_remove_file_command dev env fs d sh i args).0
  unfolding shell_remove_file_command
  remove-IsValid env fs d sh i args v = elim (Bool-cases (not fs.writable)) [
    | inl h ↦ rw h (say-IsValid env sh i _ v)
    | inr h ↦ elim (Option-cases (copy_token (skip_spaces args) 48)) [
      | inl g ↦ rw (h, g) (say-IsValid env sh i _ v)
      | inr (name, g) ↦ elim (Bool-cases (fs_remove_file dev fs d name).0) [
        | inl ok ↦ rw (h, g, ok) (say-IsValid env sh i _ v)
        | inr ok ↦ rw (h, g, ok) (say-IsValid env sh i _ v)
      ]
    ]
  ]

  curl_result-IsValid :
      (env : Env) (fs : Fs) (d : D) (sh : Shell) (i : ℕ) (target : List ℕ) (o : Options)
      (body : List ℕ)
      → IsValid sh
      → IsValid (curl_result dev services env fs d sh i target o body).0
  unfolding curl_result
  curl_result-IsValid env fs d sh i target o body v =
      let name_ = response_name o.output_name target in
      let v1 =
        say-IsValid env sh i
          (then_text 64 (append_u64_dec 64 (then_text 64 [] "curl: got ") (length body)) " bytes")
          v in
      elim (Bool-cases (length o.output_name == 0)) [
        | inl h ↦ rw h (say_all-IsValid env _ i _ v1)
        | inr h ↦ elim (Bool-cases (not fs.writable)) [
          | inl g ↦ rw (h, g) (say-IsValid env _ i _ v1)
          | inr g ↦ elim (Bool-cases (fs_write_file dev fs d name_ body false).0) [
            | inl ok ↦ rw (h, g, ok) (say-IsValid env _ i _ v1)
            | inr ok ↦ rw (h, g, ok) (say-IsValid env _ i _ v1)
          ]
        ]
      ]

  curl-IsValid :
      (env : Env) (fs : Fs) (d : D) (w : W) (sh : Shell) (i : ℕ) (url : List ℕ)
      → IsValid sh
      → IsValid (shell_curl dev services env fs d w sh i url).0
  unfolding shell_curl
  curl-IsValid env fs d w sh i url v =
      let no_options : Options = record { output_name = []; form_body = none } in
      let (o, rest) = curl_flags (length url) no_options url in
      let target = skip_spaces rest in
      let v1 = say-IsValid env sh i (bytes "curl: fetching...") v in
      elim (Bool-cases (services.net_is_ready w)) [
        | inr h ↦ rw h (say-IsValid env sh i _ v)
        | inl h ↦ elim (Bool-cases (length target == 0)) [
          | inl g ↦ rw (h, g) (say-IsValid env sh i _ v)
          | inr g ↦ elim (Option-cases (drop_prefix (bytes "http://") target)) [
            | inl p ↦ rw (h, g, p) (say-IsValid env sh i _ v)
            | inr (host, p) ↦ elim (Option-cases (fetch dev services o target w).0) [
              | inl f ↦ rw (h, g, p, f) (say-IsValid env _ i _ v1)
              | inr (body, f) ↦ rw (h, g, p, f) (curl_result-IsValid env fs d _ i target o body v1)
            ]
          ]
        ]
      ]

  snake-IsValid :
      (env : Env) (sys : System D W) (i : ℕ)
      → IsValid sys.shell
      → IsValid (shell_launch_snake env sys i).shell
  unfolding shell_launch_snake
  snake-IsValid env sys i v =
      let sh = sys.shell in
      elim (Bool-cases (env.total_memory == 0)) [
        | inl h ↦ rw h (say-IsValid env sh i _ v)
        | inr h ↦ elim (Bool-cases (ltb env.total_memory snake_min_ram_bytes)) [
          | inl g ↦ rw (h, g) (say-IsValid env _ i _ (say-IsValid env sh i _ v))
          | inr g ↦
              elim (Bool-cases
                (sys.snake.active && not (is_owner sh.snake_owner sh.active_session))) [
                  | inl k ↦ rw (h, g, k) (say-IsValid env sh i _ v)
                  | inr k ↦ elim (Bool-cases (current_session_has_app sh && not sys.snake.active)) [
                    | inl m ↦ rw (h, g, k, m) (say-IsValid env sh i _ v)
                    | inr m ↦ rw (h, g, k, m) (v.0, v.1, v.2, omega (arith, v.1), v.4, v.5, v.6)
                  ]
                ]
        ]
      ]

  editor-IsValid :
      (env : Env) (sys : System D W) (i : ℕ) (args : List ℕ)
      → IsValid sys.shell
      → IsValid (shell_launch_editor env sys i args).shell
  unfolding shell_launch_editor
  editor-IsValid env sys i args v = elim (Bool-cases (length (skip_spaces args) == 0)) [
    | inl h ↦ rw h (say-IsValid env sys.shell i _ v)
    | inr h ↦ elim (Bool-cases (current_session_has_app sys.shell)) [
      | inl g ↦ rw (h, g) (say-IsValid env sys.shell i _ v)
      | inr g ↦ rw (h, g) (v.0, v.1, v.2, v.3, omega (arith, v.1), v.5, v.6)
    ]
  ]

  browser-IsValid :
      (env : Env) (sys : System D W) (i : ℕ) (args : List ℕ)
      → IsValid sys.shell
      → IsValid (shell_launch_browser services env sys i args).shell
  unfolding shell_launch_browser
  browser-IsValid env sys i args v = elim (Bool-cases (length (skip_spaces args) == 0)) [
    | inl h ↦ rw h (say-IsValid env sys.shell i _ v)
    | inr h ↦ elim (Bool-cases (current_session_has_app sys.shell)) [
      | inl g ↦ rw (h, g) (say-IsValid env sys.shell i _ v)
      | inr g ↦ rw (h, g) (v.0, v.1, v.2, v.3, v.4, omega (arith, v.1), v.6)
    ]
  ]

  pub execute-IsValid :
      (env : Env) (sys : System D W) (i : ℕ) (c : Command)
      → IsValid sys.shell
      → IsValid (execute dev services env sys i c).1.shell
  unfolding execute
  execute-IsValid env sys i Command.crash v = v
  execute-IsValid env sys i Command.halt v = say-IsValid env sys.shell i (bytes "cpu halted") v
  execute-IsValid env sys i (Command.write args) v =
      write-IsValid env sys.fs sys.disk sys.shell i args false v
  execute-IsValid env sys i (Command.append args) v =
      write-IsValid env sys.fs sys.disk sys.shell i args true v
  execute-IsValid env sys i (Command.rm args) v =
      remove-IsValid env sys.fs sys.disk sys.shell i args v
  execute-IsValid env sys i (Command.set_layout name) v =
      layout-IsValid env sys.keyboard sys.shell i (skip_spaces name) v
  execute-IsValid env sys i (Command.curl args) v =
      curl-IsValid env sys.fs sys.disk sys.world sys.shell i args v
  execute-IsValid env sys i Command.play_snake v = snake-IsValid env sys i v
  execute-IsValid env sys i (Command.edit args) v = editor-IsValid env sys i args v
  execute-IsValid env sys i (Command.browse args) v = browser-IsValid env sys i args v
  execute-IsValid env sys i c v = show-IsValid dev services env sys i c v
