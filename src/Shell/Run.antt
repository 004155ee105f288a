-- ===== src/Shell/Run.antt =====
-- `shell_run_command` of kernel/core/shell.c: from a line of input to what it does.
use flare_os.Prelude.{
  ℕ, true, false, List, [], ◌∷◌, Option, none, some, ◌==◌, if◌then◌else◌, length,
}
use flare_os.BlockDevice.{BlockDevice}
use flare_os.FlareFs.State.{Fs}
use flare_os.Shell.Text.{bytes}
use flare_os.Shell.State.{
  Shell, System, Env, Services, say, session_at, put_session, count_up, shell_open_switcher,
  shell_open_task_manager, shell_open_installer, shell_set_active_session,
}
use flare_os.Shell.Words.{Command, command_of, skip_spaces, session_index_from_target}
use flare_os.Shell.Files.{
  say_all, shell_report_root, shell_list_files, shell_cat_file, shell_write_file_command,
  shell_remove_file_command,
}
use flare_os.Shell.Status.{
  shell_report_layout, shell_set_layout_command, shell_print_uptime, shell_print_memory,
  shell_print_uname, shell_print_paging, shell_list_users, shell_net_status,
}
use flare_os.Shell.Curl.{shell_curl}
use flare_os.Shell.Apps.{with_shell, shell_launch_snake, shell_launch_editor, shell_launch_browser}

-- What becomes of the machine: the call returns, the processor is halted for good, or a write to
-- 0x400000000, which is not mapped, ends in a page fault.
pub data Fate : Type 0 where
  returns halts faults : Fate

abbrev help_lines : List (List ℕ)
help_lines =
    bytes "help clear echo ls cat pwd uname whoami"
    ∷ bytes "users uptime mem paging snake sessions"
    ∷ bytes "switch <tty|user> top layout install"
    ∷ bytes "write append rm panic halt net curl <url>"
    ∷ bytes "edit <file>  browse <url>"
    ∷ []

-- A shell whose session `index` shows no lines.
unfoldable pub clear_lines : Shell → ℕ → Shell
clear_lines sh index = put_session sh index (record (session_at sh index) { lines = [] })

module _ {D W : Type 0} (dev : BlockDevice D) (services : Services W) where
  abbrev files_changed : System D W → Shell × Fs × D → System D W
  files_changed sys (sh, fs, d) = record sys { shell = sh; fs = fs; disk = d }

  abbrev to_session : Env → System D W → ℕ → Option ℕ → Shell
  to_session env sys index none = say env sys.shell index (bytes "session not found")
  to_session env sys index (some target) = shell_set_active_session sys.shell target

  -- The branches of the chain that return and change no more than the shell.
  unfoldable pub show : Env → System D W → ℕ → Command → Shell
  show env sys index Command.help = say_all env sys.shell index help_lines
  show env sys index Command.clear = clear_lines sys.shell index
  show env sys index Command.ls = shell_list_files env sys.fs sys.shell index
  show env sys index Command.pwd = say env sys.shell index (bytes "/")
  show env sys index Command.uname = shell_print_uname env sys.shell index
  show env sys index Command.whoami = say env sys.shell index (session_at sys.shell index).user
  show env sys index Command.users = shell_list_users env sys.shell index
  show env sys index Command.root = shell_report_root env sys.fs sys.shell index
  show env sys index Command.uptime = shell_print_uptime env sys.shell index
  show env sys index Command.mem = shell_print_memory env sys.heap sys.shell index
  show env sys index Command.paging = shell_print_paging env sys.shell index
  show env sys index Command.show_layout = shell_report_layout env sys.keyboard sys.shell index
  show env sys index Command.install = shell_open_installer sys.shell sys.keyboard.layout
  show env sys index Command.open_switcher = shell_open_switcher sys.shell
  show env sys index Command.open_top = shell_open_task_manager sys.shell
  show env sys index Command.net = shell_net_status services env sys.world sys.shell index
  show env sys index (Command.echo text) = say env sys.shell index text
  show env sys index (Command.cat name) = shell_cat_file env sys.fs sys.shell index name
  show env sys index (Command.switch_to target) =
      to_session env sys index (session_index_from_target sys.shell.sessions target)
  show env sys index Command.unknown = say env sys.shell index (bytes "unknown command")
  show env sys index _ = sys.shell

  -- `shell_halt` draws the screen once more before it stops.
  unfoldable pub execute : Env → System D W → ℕ → Command → Fate × System D W
  execute env sys index Command.crash = (Fate.faults, sys)
  execute env sys index Command.halt =
      (Fate.halts, with_shell sys (say env sys.shell index (bytes "cpu halted")))
  execute env sys index (Command.write args) = (
    Fate.returns,
    files_changed sys (shell_write_file_command dev env sys.fs sys.disk sys.shell index args false),
  )
  execute env sys index (Command.append args) = (
    Fate.returns,
    files_changed sys (shell_write_file_command dev env sys.fs sys.disk sys.shell index args true),
  )
  execute env sys index (Command.rm args) = (
    Fate.returns,
    files_changed sys (shell_remove_file_command dev env sys.fs sys.disk sys.shell index args),
  )
  execute env sys index (Command.set_layout name) =
      let (sh, keyboard) =
        shell_set_layout_command env sys.keyboard sys.shell index (skip_spaces name) in
      (Fate.returns, record sys { shell = sh; keyboard = keyboard })
  execute env sys index (Command.curl args) =
      let (sh, fs, d, w) =
        shell_curl dev services env sys.fs sys.disk sys.world sys.shell index args in
      (Fate.returns, record sys { shell = sh; fs = fs; disk = d; world = w })
  execute env sys index Command.play_snake = (Fate.returns, shell_launch_snake env sys index)
  execute env sys index (Command.edit args) = (Fate.returns, shell_launch_editor env sys index args)
  execute env sys index (Command.browse args) =
      (Fate.returns, shell_launch_browser services env sys index args)
  execute env sys index c = (Fate.returns, with_shell sys (show env sys index c))

  abbrev pub entered : Env → System D W → ℕ → List ℕ → System D W
  entered env sys index line =
      let sh = say env sys.shell index line in
      let s = session_at sh index in
      with_shell sys (put_session sh index (record s { command_count = count_up s.command_count }))

  unfoldable pub clear_input : Shell → ℕ → Shell
  clear_input sh index = put_session sh index (record (session_at sh index) { input = [] })

  -- What follows a command; nothing where it does not return.
  abbrev pub after_command : ℕ → Fate → System D W → Fate × System D W
  after_command index Fate.returns sys =
      (Fate.returns, with_shell sys (clear_input sys.shell index))
  after_command index Fate.halts sys =
      (Fate.halts, with_shell sys (record (sys.shell) { shell_dirty = true }))
  after_command index Fate.faults sys = (Fate.faults, sys)

  unfoldable pub show_line : Env → System D W → ℕ → List ℕ → System D W
  show_line env sys index line = if length line == 0 then sys else entered env sys index line

  -- The session is the one that was active when the key came, whichever is active afterwards.
  unfoldable pub shell_run_command : Env → System D W → ℕ → Fate × System D W
  shell_run_command env sys index =
      let line = (session_at sys.shell index).input in
      let (fate, ran) = execute env (show_line env sys index line) index (command_of line) in
      after_command index fate ran
