-- ===== src/Shell/Status.antt =====
-- The commands of kernel/core/shell.c that tell the state of the machine.
use flare_os.Prelude.{ℕ, ◌+◌, ◌/◌, ◌%◌, ◌^◌, not, List, [], ◌∷◌, ◌==◌, if◌then◌else◌}
use Prim.Native.String.{String}
use flare_os.FlareFs.Ops.{same_text}
use flare_os.Keyboard.{Keyboard, Layout, keyboard_set_layout}
use flare_os.Memory.{Heap, heap_bytes_used}
use flare_os.Shell.Text.{bytes, append_text, append_char, append_u64_dec}
use flare_os.Shell.Lines.{ShellSession}
use flare_os.Shell.State.{Shell, Env, Services, say, ticks_to_seconds, ram_mebibytes}
use flare_os.Shell.Files.{say_all}

abbrev pub layout_name : Layout → List ℕ
layout_name Layout.qwerty = bytes "qwerty"
layout_name Layout.azerty = bytes "azerty"

-- KEYBOARD_LAYOUT_QWERTY and KEYBOARD_LAYOUT_AZERTY.
abbrev pub layout_code : Layout → ℕ
layout_code Layout.qwerty = 0
layout_code Layout.azerty = 1

abbrev pub then_text : ℕ → List ℕ → String → List ℕ
then_text size line text = append_text size line (bytes text)

unfoldable pub shell_report_layout : Env → Keyboard → Shell → ℕ → Shell
shell_report_layout env keyboard sh index =
    say env sh index (append_text 48 (then_text 48 [] "layout ") (layout_name keyboard.layout))

abbrev use_layout : Env → Keyboard → Shell → ℕ → Layout → Shell × Keyboard
use_layout env keyboard sh index layout =
    let set = keyboard_set_layout keyboard (layout_code layout) in
    (shell_report_layout env set (record sh { installer_layout = layout }) index, set)

unfoldable pub shell_set_layout_command : Env → Keyboard → Shell → ℕ → List ℕ → Shell × Keyboard
shell_set_layout_command env keyboard sh index name =
    if same_text name (bytes "azerty")
    then use_layout env keyboard sh index Layout.azerty
    else if same_text name (bytes "qwerty")
    then use_layout env keyboard sh index Layout.qwerty
    else (say env sh index (bytes "layout must be qwerty or azerty"), keyboard)

unfoldable pub shell_print_uptime : Env → Shell → ℕ → Shell
shell_print_uptime env sh index =
    let line = append_u64_dec 64 (then_text 64 [] "uptime ") (ticks_to_seconds env env.now) in
    say env sh index (then_text 64 line "s")

unfoldable pub shell_print_memory : Env → Heap → Shell → ℕ → Shell
shell_print_memory env heap sh index =
    let used = append_u64_dec 96 (then_text 96 [] "heap=") (heap_bytes_used heap) in
    let ram = append_u64_dec 96 (then_text 96 used " ram=") (ram_mebibytes env.total_memory) in
    let mapped = append_u64_dec 96 (then_text 96 ram "MiB map=") (env.mapped_bytes / 4096) in
    say env sh index (then_text 96 mapped "pg")

unfoldable pub shell_print_uname : Env → Shell → ℕ → Shell
shell_print_uname env sh index = say env sh index (bytes "flareOS x86_64 multi-session shell")

unfoldable pub shell_print_paging : Env → Shell → ℕ → Shell
shell_print_paging env sh index =
    let tables = append_u64_dec 96 (then_text 96 [] "tables=") env.table_count in
    let mapped = append_u64_dec 96 (then_text 96 tables " mapped=") (env.mapped_bytes / 4096) in
    say env sh index (then_text 96 mapped " pages")

abbrev user_line : ℕ → ℕ → List ℕ → List ℕ
user_line active i user =
    let tty = append_char 48 (append_u64_dec 48 (then_text 48 [] "tty") (i + 1)) b' ' in
    let named = append_text 48 tty user in if i == active then then_text 48 named " *" else named

abbrev user_lines : ℕ → ℕ → List ShellSession → List (List ℕ)
user_lines active i [] = []
user_lines active i (s ∷ sessions) = user_line active i s.user ∷ user_lines active (i + 1) sessions

unfoldable pub shell_list_users : Env → Shell → ℕ → Shell
shell_list_users env sh index = say_all env sh index (user_lines sh.active_session 0 sh.sessions)

unfoldable pub append_ip : ℕ → List ℕ → ℕ → List ℕ
append_ip size line ip =
    let a = append_char size (append_u64_dec size line (ip / 2 ^ 24 % 256)) b'.' in
    let b = append_char size (append_u64_dec size a (ip / 2 ^ 16 % 256)) b'.' in
    let c = append_char size (append_u64_dec size b (ip / 2 ^ 8 % 256)) b'.' in
    append_u64_dec size c (ip % 256)

module _ {W : Type 0} (services : Services W) where
  unfoldable pub shell_net_status : Env → W → Shell → ℕ → Shell
  shell_net_status env w sh index =
      if not (services.net_is_ready w)
      then say env sh index (bytes "net: offline")
      else say_all env sh index (
          bytes "net: online"
          ∷ append_ip 64 (then_text 64 [] "ip ") (services.net_ip w)
          ∷ append_ip 64 (then_text 64 [] "gw ") (services.net_gateway w)
          ∷ append_ip 64 (then_text 64 [] "dns ") (services.net_dns w)
          ∷ append_ip 64 (then_text 64 [] "mask ") (services.net_mask w)
          ∷ [])
