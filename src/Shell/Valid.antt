-- ===== src/Shell/Valid.antt =====
-- What stays true of the variables of kernel/core/shell.c while commands run.
use flare_os.Prelude.{
  ℕ, zero, suc, ◌≤◌, ◌<◌, ◌≡◌, refl, sym, ap, ◌∙◌, subst, inl, inr, List, [], ◌∷◌, arith, ltb, leb,
  ◌==◌, length, set, get_or, length-set, get_or-set_self, get_or-set_ne, Bool-cases,
}
use flare_os.Shell.Lines.{ShellSession, session_push_line_raw, session_push_line, push_all}
use flare_os.Shell.Wrapping.{session_push_line-short}
use flare_os.Shell.State.{
  Shell, Env, say, session_at, put_session, empty_session, body_cols, shell_set_active_session,
  count_up,
}
use flare_os.Shell.Files.{say_all}
use flare_os.Shell.Apps.{owner_number}

-- The lines and the input are within their arrays.
abbrev pub SessionFits : ShellSession → Type 0
SessionFits s = (length s.lines ≤ 128) × (length s.input ≤ 79)

-- There are four sessions that fit, and the sessions in use are among them.
abbrev pub IsValid : Shell → Type 0
IsValid sh =
    (length sh.sessions ≡ 4)
    × (sh.active_session < 4)
    × (sh.selected_session < 4)
    × (owner_number sh.snake_owner ≤ 4)
    × (owner_number sh.editor_owner ≤ 4)
    × (owner_number sh.browser_owner ≤ 4)
    × ((i : ℕ) → SessionFits (session_at sh i))

set_out :
    (sessions : List ShellSession) (i j : ℕ) (s : ShellSession)
    → length sessions ≤ i
    → get_or (set sessions i s) j empty_session ≡ get_or sessions j empty_session
set_out [] i j s h = refl
set_out (t ∷ sessions) zero j s h = absurd (omega arith)
set_out (t ∷ sessions) (suc i) zero s h = refl
set_out (t ∷ sessions) (suc i) (suc j) s h = set_out sessions i j s (omega arith)

session-put :
    (sh : Shell) (i j : ℕ) (s : ShellSession)
    → SessionFits s
    → SessionFits (session_at sh j)
    → SessionFits (get_or (set sh.sessions i s) j empty_session)
session-put sh i j s fits old = elim (Bool-cases (i == j)) [
  | inl same ↦
      let e : i ≡ j = ground arith in
      elim (Bool-cases (ltb i (length sh.sessions))) [
        | inl inside ↦
            subst (λ (t : ShellSession). SessionFits t)
              (sym (get_or-set_self sh.sessions i s empty_session (ground arith))
                ∙ ap (λ (k : ℕ). get_or (set sh.sessions i s) k empty_session) e)
              fits
        | inr outside ↦
            subst (λ (t : ShellSession). SessionFits t)
              (sym (set_out sh.sessions i j s (ground arith))) old
      ]
  | inr other ↦
      subst (λ (t : ShellSession). SessionFits t)
        (sym (get_or-set_ne sh.sessions s empty_session (ground arith))) old
]

pub put_session-IsValid :
    (sh : Shell) (i : ℕ) (s : ShellSession)
    → IsValid sh
    → SessionFits s
    → IsValid (put_session sh i s)
unfolding put_session
put_session-IsValid sh i s v fits = (
  length-set sh.sessions i s ∙ v.0,
  v.1,
  v.2,
  v.3,
  v.4,
  v.5,
  λ j. session-put sh i j s fits (v.6 j),
)

push_raw-input : (s : ShellSession) (text : List ℕ) → (session_push_line_raw s text).input ≡ s.input
unfolding session_push_line_raw
push_raw-input s text = refl

push_all-input : (s : ShellSession) (lines : List (List ℕ)) → (push_all s lines).input ≡ s.input
unfolding push_all
push_all-input s [] = refl
push_all-input s (line ∷ lines) =
    push_all-input (session_push_line_raw s line) lines ∙ push_raw-input s line

push-input :
    (cols : ℕ) (s : ShellSession) (text : List ℕ) → (session_push_line cols s text).input ≡ s.input
unfolding session_push_line
push-input cols s [] = push_raw-input s []
push-input cols s (c ∷ text) = push_all-input s _

body_cols-wide : (env : Env) → 1 ≤ body_cols env
unfolding body_cols
body_cols-wide env = ground arith

pub push-Fits :
    (env : Env) (s : ShellSession) (text : List ℕ)
    → SessionFits s
    → SessionFits (session_push_line (body_cols env) s text)
push-Fits env s text fits = (
  session_push_line-short (body_cols env) s text (body_cols-wide env) fits.0,
  omega (arith, fits.1, ap (λ (xs : List ℕ). length xs) (push-input (body_cols env) s text)),
)

pub say-IsValid :
    (env : Env) (sh : Shell) (i : ℕ) (text : List ℕ) → IsValid sh → IsValid (say env sh i text)
unfolding say
say-IsValid env sh i text v =
    put_session-IsValid sh i _ v (push-Fits env (session_at sh i) text (v.6 i))

pub say_all-IsValid :
    (env : Env) (sh : Shell) (i : ℕ) (lines : List (List ℕ))
    → IsValid sh
    → IsValid (say_all env sh i lines)
unfolding say_all
say_all-IsValid env sh i [] v = v
say_all-IsValid env sh i (line ∷ lines) v =
    say_all-IsValid env (say env sh i line) i lines (say-IsValid env sh i line v)

pub set_active-IsValid : (sh : Shell) (i : ℕ) → IsValid sh → IsValid (shell_set_active_session sh i)
unfolding shell_set_active_session
set_active-IsValid sh i v = elim (Bool-cases (leb 4 i)) [
  | inl h ↦ rw h v
  | inr h ↦
      let put =
        put_session-IsValid sh i
          (record (session_at sh i) { switch_count = count_up (session_at sh i).switch_count }) v
          (v.6 i) in
      let inside : i < 4 = ground arith in rw h (put.0, inside, inside, put.3, put.4, put.5, put.6)
]
