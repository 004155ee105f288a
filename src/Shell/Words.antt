-- ===== src/Shell/Words.antt =====
-- How kernel/core/shell.c reads a command line.
use flare_os.Prelude.{
  ℕ, ◌+◌, ◌-◌, Bool, ◌&&◌, ◌||◌, List, [], ◌∷◌, Option, none, some, ltb, leb, ◌==◌, if◌then◌else◌,
  length, map_option,
}
use Prim.Native.String.{String}
use flare_os.FlareFs.Ops.{same_text}
use flare_os.Shell.Text.{bytes}
use flare_os.Shell.Lines.{ShellSession}

unfoldable pub skip_spaces : List ℕ → List ℕ
skip_spaces [] = []
skip_spaces (c ∷ text) = if c == b' ' then skip_spaces text else c ∷ text

-- The word in front of the pointer that `token_end` returns, and the text behind it.
unfoldable pub token : List ℕ → List ℕ
token [] = []
token (c ∷ text) = if c == b' ' then [] else c ∷ token text

unfoldable pub token_end : List ℕ → List ℕ
token_end [] = []
token_end (c ∷ text) = if c == b' ' then c ∷ text else token_end text

unfoldable pub copy_token : List ℕ → ℕ → Option (List ℕ)
copy_token src size =
    let word = token src in if length word == 0 || leb size (length word) then none else some word

-- The text behind a prefix that `strncmp` finds in front of it.
unfoldable pub drop_prefix : List ℕ → List ℕ → Option (List ℕ)
drop_prefix [] text = some text
drop_prefix (p ∷ prefix) [] = none
drop_prefix (p ∷ prefix) (c ∷ text) = if p == c then drop_prefix prefix text else none

unfoldable pub user_index_from : ℕ → List ShellSession → List ℕ → Option ℕ
user_index_from i [] target = none
user_index_from i (s ∷ sessions) target =
    if same_text target s.user then some i else user_index_from (i + 1) sessions target

abbrev digit_index : List ℕ → Option ℕ
digit_index [] = none
digit_index (d ∷ []) = if leb b'1' d && ltb d (b'1' + 4) then some (d - b'1') else none
digit_index (d ∷ c ∷ text) = none

unfoldable pub session_index_from_target : List ShellSession → List ℕ → Option ℕ
session_index_from_target sessions target = elim (digit_index (skip_spaces target)) [
  | none ↦ user_index_from 0 sessions (skip_spaces target)
  | some index ↦ some index
]

-- A command line, with the text behind the command's name.
pub data Command : Type 0 where
  help clear ls pwd uname whoami users root uptime mem paging : Command
  show_layout install play_snake open_switcher open_top net crash halt empty unknown : Command
  echo : List ℕ → Command
  write : List ℕ → Command
  append : List ℕ → Command
  rm : List ℕ → Command
  cat : List ℕ → Command
  set_layout : List ℕ → Command
  switch_to : List ℕ → Command
  curl : List ℕ → Command
  edit : List ℕ → Command
  browse : List ℕ → Command

abbrev is : List ℕ → String → Bool
is line name = same_text line (bytes name)

abbrev orelse : Option Command → Command → Command
orelse none rest = rest
orelse (some c) rest = c

abbrev with_text : List ℕ → String → (List ℕ → Command) → Option Command
with_text line name c = map_option c (drop_prefix (bytes name) line)

-- The chain of tests of `shell_run_command`, from the last to the first part.
abbrev later_command : List ℕ → Command
later_command line =
    if is line "top" || (is line "tasks" || is line "taskman")
    then Command.open_top
    else if is line "net"
    then Command.net
    else orelse (with_text line "curl " Command.curl) (
        orelse (with_text line "edit " Command.edit) (
          orelse (with_text line "browse " Command.browse) (
            if is line "panic" || is line "crash"
            then Command.crash
            else if is line "halt"
            then Command.halt
            else if length line == 0
            then Command.empty
            else Command.unknown)))

abbrev middle_command : List ℕ → Command
middle_command line =
    if is line "uptime"
    then Command.uptime
    else if is line "mem"
    then Command.mem
    else if is line "paging"
    then Command.paging
    else if is line "layout"
    then Command.show_layout
    else orelse (with_text line "layout " Command.set_layout) (
        if is line "install"
        then Command.install
        else if is line "snake"
        then Command.play_snake
        else if is line "sessions" || is line "switch"
        then Command.open_switcher
        else orelse (with_text line "switch " Command.switch_to) (later_command line))

abbrev file_command : List ℕ → Command
file_command line = orelse (with_text line "write " Command.write) (
    orelse (with_text line "append " Command.append) (
      orelse (with_text line "rm " Command.rm) (
        orelse (with_text line "cat " Command.cat) (
          if is line "pwd"
          then Command.pwd
          else if is line "uname"
          then Command.uname
          else if is line "whoami"
          then Command.whoami
          else if is line "users"
          then Command.users
          else if is line "root"
          then Command.root
          else middle_command line))))

unfoldable pub command_of : List ℕ → Command
command_of line =
    if is line "help"
    then Command.help
    else if is line "clear"
    then Command.clear
    else orelse (with_text line "echo " Command.echo)
        (if is line "ls" then Command.ls else file_command line)
