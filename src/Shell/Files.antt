-- ===== src/Shell/Files.antt =====
-- The file commands of kernel/core/shell.c. The `index` is that of the session that a command runs
-- in; the `Shell` is changed by the lines that are pushed alone.
use flare_os.Prelude.{
  ℕ, ◌+◌, Bool, not, ◌||◌, List, [], ◌∷◌, ◌++◌, none, some, ltb, leb, ◌==◌, if◌then◌else◌, length,
}
use flare_os.BlockDevice.{BlockDevice}
use flare_os.FlareFs.State.{Fs, FsFile, Backend}
use flare_os.FlareFs.Ops.{fs_write_file, fs_remove_file}
use flare_os.FlareFs.Lookup.{lookup}
use flare_os.Shell.Text.{bytes, append_text}
use flare_os.Shell.State.{Shell, Env, say}
use flare_os.Shell.Words.{skip_spaces, token_end, copy_token}

unfoldable pub say_all : Env → Shell → ℕ → List (List ℕ) → Shell
say_all env sh index [] = sh
say_all env sh index (line ∷ lines) = say_all env (say env sh index line) index lines

abbrev pub backend_text : Backend → List ℕ
backend_text Backend.install_media = bytes "install-media"
backend_text Backend.flarefs = bytes "flarefs"

unfoldable pub root_line : Fs → List ℕ
root_line fs =
    append_text 64 (append_text 64 (append_text 64 [] (bytes "root ")) (backend_text fs.backend))
      (if fs.writable then bytes " rw" else bytes " ro")

unfoldable pub shell_report_root : Env → Fs → Shell → ℕ → Shell
shell_report_root env fs sh index = say env sh index (root_line fs)

abbrev file_names : List FsFile → List (List ℕ)
file_names [] = []
file_names (file ∷ files) = file.name ∷ file_names files

unfoldable pub shell_list_files : Env → Fs → Shell → ℕ → Shell
shell_list_files env fs sh index =
    if length fs.files == 0
    then say env sh index (bytes "no files")
    else say_all env sh index (file_names fs.files)

-- A byte as it is shown. `char` is signed, so the bytes from 128 on are below a space.
abbrev pub shown : ℕ → ℕ
shown ch = if ltb ch b' ' || ltb b'~' ch then b'.' else ch

-- The loop over the bytes of a file, from the text in `line` on: the lines that it pushes, with the
-- line behind the loop.
unfoldable pub cat_from : List ℕ → List ℕ → List (List ℕ)
cat_from line [] = if length line == 0 then [] else line ∷ []
cat_from line (ch ∷ content) =
    let skipped = cat_from line content in
    let ended = cat_from [] content in
    let wrapped = cat_from (shown ch ∷ []) content in
    let longer = cat_from (line ++ (shown ch ∷ [])) content in
    if ch == 13
    then skipped
    else if ch == 10
    then line ∷ ended
    else if leb 96 (length line + 1)
    then line ∷ wrapped
    else longer

-- An empty file is shown as an empty line.
unfoldable pub cat_lines : List ℕ → List (List ℕ)
cat_lines [] = [] ∷ []
cat_lines (ch ∷ content) = cat_from [] (ch ∷ content)

unfoldable pub shell_cat_file : Env → Fs → Shell → ℕ → List ℕ → Shell
shell_cat_file env fs sh index name = elim (lookup name fs.files) [
  | none ↦ say env sh index (bytes "file not found")
  | some content ↦ say_all env sh index (cat_lines content)
]

module _ {D : Type 0} (dev : BlockDevice D) where
  unfoldable pub shell_write_file_command :
      Env → Fs → D → Shell → ℕ → List ℕ → Bool → Shell × Fs × D
  shell_write_file_command env fs d sh index args append =
      let tail = skip_spaces args in
      let usage = if append then "usage: append <file> <text>" else "usage: write <file> <text>" in
      let done = if append then "file appended" else "file written" in
      if not fs.writable
      then (say env sh index (bytes "root fs is read-only"), fs, d)
      else elim (copy_token tail 48) [
        | none ↦ (say env sh index (bytes usage), fs, d)
        | some name ↦
            (let (ok, fs', d') =
                fs_write_file dev fs d name (skip_spaces (token_end tail)) append in
              if not ok
              then (say env sh index (bytes "write failed"), fs', d')
              else (say env sh index (bytes done), fs', d'))
      ]

  unfoldable pub shell_remove_file_command : Env → Fs → D → Shell → ℕ → List ℕ → Shell × Fs × D
  shell_remove_file_command env fs d sh index args =
      if not fs.writable
      then (say env sh index (bytes "root fs is read-only"), fs, d)
      else elim (copy_token (skip_spaces args) 48) [
        | none ↦ (say env sh index (bytes "usage: rm <file>"), fs, d)
        | some name ↦
            (let (ok, fs', d') = fs_remove_file dev fs d name in
              if not ok
              then (say env sh index (bytes "remove failed"), fs', d')
              else (say env sh index (bytes "file removed"), fs', d'))
      ]
