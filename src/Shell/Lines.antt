-- ===== src/Shell/Lines.antt =====
-- The sessions of kernel/core/shell.c and the lines that they show.
use flare_os.Prelude.{
  ℕ, zero, suc, ◌+◌, List, [], ◌∷◌, ◌++◌, min, ◌==◌, if◌then◌else◌, length, take, drop,
}
use flare_os.Shell.Text.{bytes, append_text, append_char, append_u64_dec}

-- `lines` are the first `line_count` of the 128 lines, and `input` the `input_len` characters that
-- stand before the NUL.
pub record ShellSession : Type 0 where
  pub user : List ℕ
  pub lines : List (List ℕ)
  pub input : List ℕ
  pub started_tick : ℕ
  pub last_input_tick : ℕ
  pub last_render_tick : ℕ
  pub focus_ticks : ℕ
  pub render_count : ℕ
  pub key_count : ℕ
  pub command_count : ℕ
  pub switch_count : ℕ

-- When all 128 lines are in use, the first one makes room.
unfoldable pub session_push_line_raw : ShellSession → List ℕ → ShellSession
session_push_line_raw s text =
    let kept = if length s.lines == 128 then drop 1 s.lines else s.lines in
    record s { lines = kept ++ (take 95 text ∷ []) }

-- The characters of one round of `session_push_line`, for a screen with `cols` columns.
abbrev pub chunk_len : ℕ → ℕ
chunk_len cols = min 95 cols

-- The outer loop of `session_push_line`. A round takes a character at least, since `body_cols` is 12
-- or more, so as many rounds as there are characters are enough: `Wrapping.chunks-concat`.
unfoldable pub chunks : ℕ → ℕ → List ℕ → List (List ℕ)
chunks cols zero text = []
chunks cols (suc left) [] = []
chunks cols (suc left) (c ∷ text) =
    take (chunk_len cols) (c ∷ text) ∷ chunks cols left (drop (chunk_len cols) (c ∷ text))

unfoldable pub push_all : ShellSession → List (List ℕ) → ShellSession
push_all s [] = s
push_all s (line ∷ lines) = push_all (session_push_line_raw s line) lines

unfoldable pub session_push_line : ℕ → ShellSession → List ℕ → ShellSession
session_push_line cols s [] = session_push_line_raw s []
session_push_line cols s (c ∷ text) = push_all s (chunks cols (length (c ∷ text)) (c ∷ text))

unfoldable pub session_prompt_line : ShellSession → ℕ → ℕ → List ℕ
session_prompt_line s index size =
    let name = append_char size (append_text size [] s.user) b'@' in
    append_text size (append_text size (append_u64_dec size name (index + 1)) (bytes "> ")) s.input
