-- ===== src/Shell/Storing.antt =====
-- The file commands of kernel/core/shell.c on top of FlareFS.
use flare_os.Prelude.{
  ℕ, ◌+◌, ◌≤◌, ◌<◌, ◌≡◌, refl, sym, ap, subst, ◌∙◌, true, false, not, List, [], ◌∷◌, ◌++◌, Option,
  none, some, leb, ◌==◌, length, arith, length-append,
}
use mathlib.Core.List.{append-nil, append_assoc}
use flare_os.BlockDevice.{BlockDevice}
use flare_os.FlareFs.State.{Fs}
use flare_os.FlareFs.Ops.{fs_write_file}
use flare_os.FlareFs.Lookup.{lookup, written, lookup-fs_write_file}
use flare_os.FlareFs.Names.{same_text_refl}
use flare_os.Shell.Text.{bytes}
use flare_os.Shell.State.{Shell, Env, say}
use flare_os.Shell.Words.{skip_spaces, token, token_end, copy_token}
use flare_os.Shell.Files.{
  say_all, shown, cat_from, cat_lines, shell_cat_file, shell_write_file_command,
}

-- A name without spaces, of 1 to 47 characters.
abbrev pub Word : List ℕ → Type 0
Word [] = Unit {0}
Word (c ∷ name) = ((c == b' ') ≡ false) × Word name

-- Characters that are shown as they are.
abbrev pub Printable : List ℕ → Type 0
Printable [] = Unit {0}
Printable (c ∷ text) = (b' ' ≤ c) × (c ≤ b'~') × Printable text

token-Word : (name body : List ℕ) → Word name → token (name ++ b' ' ∷ body) ≡ name
unfolding token
token-Word [] body h = refl
token-Word (c ∷ name) body h = rw h.0 (ap (λ (t : List ℕ). c ∷ t) (token-Word name body h.1))

token_end-Word : (name body : List ℕ) → Word name → token_end (name ++ b' ' ∷ body) ≡ b' ' ∷ body
unfolding token_end
token_end-Word [] body h = refl
token_end-Word (c ∷ name) body h = rw h.0 (token_end-Word name body h.1)

cat_from-short :
    (line text : List ℕ)
    → Printable text
    → length line + length text ≤ 95
    → 1 ≤ length line + length text
    → cat_from line text ≡ (line ++ text) ∷ []
unfolding cat_from
cat_from-short [] [] p fits some_ = absurd (omega arith)
cat_from-short (c ∷ line) [] p fits some_ =
    let full : (length (c ∷ line) == 0) ≡ false = ground arith in
    rw full (ap (λ (t : List ℕ). t ∷ []) (sym (append-nil (c ∷ line))))
cat_from-short line (ch ∷ text) p fits some_ =
    let same : shown ch ≡ ch = ground arith in
    let no_return : (ch == 13) ≡ false = ground arith in
    let no_line : (ch == 10) ≡ false = ground arith in
    let room : leb 96 (length line + 1) ≡ false = ground arith in
    rw (no_return, no_line, room, same)
      (cat_from-short (line ++ (ch ∷ [])) text p.2 (omega (arith, length-append line (ch ∷ [])))
          (omega (arith, length-append line (ch ∷ [])))
        ∙ ap (λ (t : List ℕ). t ∷ []) (append_assoc line (ch ∷ []) text))

cat_lines-short :
    (c : ℕ) (text : List ℕ)
    → Printable (c ∷ text)
    → length (c ∷ text) ≤ 95
    → cat_lines (c ∷ text) ≡ (c ∷ text) ∷ []
unfolding cat_lines
cat_lines-short c text p fits = cat_from-short [] (c ∷ text) p (omega arith) (omega arith)

cat-found :
    (env : Env) (fs : Fs) (sh : Shell) (i : ℕ) (name : List ℕ) (c : ℕ) (text : List ℕ)
    → Printable (c ∷ text)
    → length (c ∷ text) ≤ 95
    → lookup name fs.files ≡ some (c ∷ text)
    → shell_cat_file env fs sh i name ≡ say env sh i (c ∷ text)
unfolding shell_cat_file say_all
cat-found env fs sh i name c text printable fits found =
    rw (found, shell_cat_file)
      (ap (λ (lines : List (List ℕ)). say_all env sh i lines)
        (cat_lines-short c text printable fits))

skip-Word :
    (n : ℕ) (name rest : List ℕ)
    → Word (n ∷ name)
    → skip_spaces ((n ∷ name) ++ rest) ≡ (n ∷ name) ++ rest
unfolding skip_spaces
skip-Word n name rest word = rw word.0 refl

skip-space :
    (c : ℕ) (text : List ℕ) → (c == b' ') ≡ false → skip_spaces (b' ' ∷ c ∷ text) ≡ c ∷ text
unfolding skip_spaces
skip-space c text begins = rw begins refl

copy-Word :
    (n : ℕ) (name body : List ℕ)
    → Word (n ∷ name)
    → length (n ∷ name) < 48
    → copy_token ((n ∷ name) ++ b' ' ∷ body) 48 ≡ some (n ∷ name)
unfolding copy_token
copy-Word n name body word short =
    let some_ : (length (n ∷ name) == 0) ≡ false = ground arith in
    let fits : leb 48 (length (n ∷ name)) ≡ false = ground arith in
    rw (token-Word (n ∷ name) body word, some_, fits) refl

written-new : (old : Option (List ℕ)) (text : List ℕ) → written old text false ≡ text
unfolding written
written-new none text = refl
written-new (some old) text = refl

module _ {D : Type 0} (dev : BlockDevice D) where
  write-arguments :
      (env : Env) (fs : Fs) (d : D) (sh : Shell) (i n c : ℕ) (name text : List ℕ)
      → fs.writable ≡ true
      → Word (n ∷ name)
      → length (n ∷ name) < 48
      → (c == b' ') ≡ false
      → (fs_write_file dev fs d (n ∷ name) (c ∷ text) false).0 ≡ true
      → shell_write_file_command dev env fs d sh i ((n ∷ name) ++ b' ' ∷ c ∷ text) false ≡ (
        say env sh i (bytes "file written"),
        (fs_write_file dev fs d (n ∷ name) (c ∷ text) false).1,
        (fs_write_file dev fs d (n ∷ name) (c ∷ text) false).2,
      )
  unfolding shell_write_file_command
  write-arguments env fs d sh i n c name text writable word short begins wrote =
      let open_ : not fs.writable ≡ false = ap not writable in
      rw
        (
          open_,
          skip-Word n name (b' ' ∷ c ∷ text) word,
          copy-Word n name (c ∷ text) word short,
          skip-Word n name (b' ' ∷ c ∷ text) word,
          token_end-Word (n ∷ name) (c ∷ text) word,
          skip-space c text begins,
          wrote,
        )
        refl

  written_lookup :
      (fs : Fs) (d : D) (name text : List ℕ)
      → (fs_write_file dev fs d name text false).0 ≡ true
      → lookup name (fs_write_file dev fs d name text false).1.files ≡ some text
  written_lookup fs d name text wrote =
      rw (lookup-fs_write_file dev fs d name text false name wrote, same_text_refl name)
        (ap (λ (t : List ℕ). some t) (written-new (lookup name fs.files) text))

  -- On a writable file system, where a write of the text under the name succeeds: `write` in a session,
  -- with a name of 1 to 47 characters without a space, a space and a text of 1 to 95 printable characters
  -- that does not begin with a space, says "file written" there, and `cat` with that name afterwards
  -- shows the text.
  pub cat-write :
      (env : Env) (fs : Fs) (d : D) (sh : Shell) (i n c : ℕ) (name text : List ℕ)
      → fs.writable ≡ true
      → Word (n ∷ name)
      → length (n ∷ name) < 48
      → Printable (c ∷ text)
      → length (c ∷ text) ≤ 95
      → (c == b' ') ≡ false
      → (fs_write_file dev fs d (n ∷ name) (c ∷ text) false).0 ≡ true
      → (let (told, fs', _) =
            shell_write_file_command dev env fs d sh i ((n ∷ name) ++ b' ' ∷ c ∷ text) false in
          (told ≡ say env sh i (bytes "file written"))
          × (shell_cat_file env fs' told i (n ∷ name) ≡ say env told i (c ∷ text)))
  cat-write env fs d sh i n c name text writable word short printable fits begins wrote =
      let went = write-arguments env fs d sh i n c name text writable word short begins wrote in
      subst
        (λ (r : Shell × Fs × D).
          (r.0 ≡ say env sh i (bytes "file written"))
          × (shell_cat_file env r.1 r.0 i (n ∷ name) ≡ say env r.0 i (c ∷ text)))
        (sym went)
        (
          refl,
          cat-found env _ (say env sh i (bytes "file written")) i (n ∷ name) c text printable fits
              (written_lookup fs d (n ∷ name) (c ∷ text) wrote),
        )
