-- ===== src/Shell/History.antt =====
-- The histories of kernel/core/shell.c: its start, and the keys and ticks that follow.
use flare_os.Prelude.{ℕ, zero, suc, refl, Bool, List, [], ◌∷◌, arith, get_or}
use flare_os.BlockDevice.{BlockDevice}
use flare_os.FlareFs.State.{Fs}
use flare_os.Keyboard.{Keyboard, Layout}
use flare_os.Shell.Lines.{ShellSession}
use flare_os.Shell.Text.{bytes}
use flare_os.Shell.State.{empty_session, Shell, Env, System, Services}
use flare_os.Shell.Run.{Fate}
use flare_os.Shell.Keys.{shell_keyboard_event, shell_timer_tick, take_memory}
use flare_os.Shell.Starting.{shell_init, greeted}
use flare_os.Shell.Valid.{SessionFits, IsValid, push-Fits}
use flare_os.Shell.Reachable.{key-IsValid, tick-IsValid}

pub data Event : Type 0 where
  key : (env : Env) (code : ℕ) (pressed : Bool) → Event
  tick : Env → Event

four-Fits :
    (a b c d : ShellSession)
    → SessionFits a
    → SessionFits b
    → SessionFits c
    → SessionFits d
    → (i : ℕ) → SessionFits (get_or (a ∷ b ∷ c ∷ d ∷ []) i empty_session)
four-Fits a b c d p q r s zero = p
four-Fits a b c d p q r s (suc zero) = q
four-Fits a b c d p q r s (suc (suc zero)) = r
four-Fits a b c d p q r s (suc (suc (suc zero))) = s
four-Fits a b c d p q r s (suc (suc (suc (suc i)))) = (omega arith, omega arith)

module _ {D W : Type 0} (dev : BlockDevice D) (services : Services W) where
  abbrev remembered : Env → Fate × System D W → Fate × System D W
  remembered env (fate, sys) = (fate, take_memory env sys)

  unfoldable pub step : System D W → Event → Fate × System D W
  step sys (Event.key env code pressed) =
      remembered env (shell_keyboard_event dev services env sys code pressed)
  step sys (Event.tick env) =
      (Fate.returns, take_memory env (shell_timer_tick dev services env sys))

  abbrev go_on : Fate × System D W → Fate × System D W → Fate × System D W
  go_on (Fate.returns, sys) rest = rest
  go_on (Fate.halts, sys) rest = (Fate.halts, sys)
  go_on (Fate.faults, sys) rest = (Fate.faults, sys)

  -- What comes after a call that does not return is not handled.
  unfoldable pub run : System D W → List Event → Fate × System D W
  run sys [] = (Fate.returns, sys)
  run sys (e ∷ events) = let rest = run (step sys e).1 events in go_on (step sys e) rest

  remembered-IsValid :
      (env : Env) (r : Fate × System D W) → IsValid r.1.shell → IsValid (remembered env r).1.shell
  unfolding take_memory
  remembered-IsValid env (fate, sys) v = v

  step-IsValid : (sys : System D W) (e : Event) → IsValid sys.shell → IsValid (step sys e).1.shell
  unfolding step take_memory
  step-IsValid sys (Event.key env code pressed) v =
      remembered-IsValid env (shell_keyboard_event dev services env sys code pressed)
        (key-IsValid dev services env sys code pressed v)
  step-IsValid sys (Event.tick env) v = tick-IsValid dev services env sys v

  go_on-IsValid :
      (r rest : Fate × System D W)
      → IsValid r.1.shell
      → IsValid rest.1.shell
      → IsValid (go_on r rest).1.shell
  go_on-IsValid (Fate.returns, sys) rest v w = w
  go_on-IsValid (Fate.halts, sys) rest v w = v
  go_on-IsValid (Fate.faults, sys) rest v w = v

  run_from :
      (sys : System D W) (events : List Event)
      → IsValid sys.shell
      → IsValid (run sys events).1.shell
  unfolding run
  run_from sys [] v = v
  run_from sys (e ∷ events) v =
      let next = step-IsValid sys e v in
      go_on-IsValid (step sys e) (run (step sys e).1 events) next
        (run_from (step sys e).1 events next)

  greeted-Fits :
      (env : Env) (fs : Fs) (layout : Layout) (i : ℕ) (user : List ℕ)
      → SessionFits (greeted env fs layout i user)
  unfolding greeted
  greeted-Fits env fs layout i user = push-Fits env _ _ (
      push-Fits env _ _ (
        push-Fits env _ _
          (push-Fits env _ _ (push-Fits env _ _ (push-Fits env _ _ (omega arith, omega arith))))))

  init-IsValid :
      (env : Env) (fs : Fs) (k : Keyboard) (old : Shell) → IsValid (shell_init env fs k old)
  unfolding shell_init
  init-IsValid env fs k old =
      let fits = greeted-Fits env fs k.layout in
      (
        refl,
        omega arith,
        omega arith,
        omega arith,
        omega arith,
        omega arith,
        four-Fits _ _ _ _ (fits 0 (bytes "root")) (fits 1 (bytes "dev")) (fits 2 (bytes "guest"))
            (fits 3 (bytes "ops")),
      )

  -- After the start of the shell, on any machine, and any history of keys and timer ticks, up to the
  -- first key whose call does not return: there are four sessions, the active and the selected one
  -- and the owners of the three programs are among them, no session holds more than 128 lines, and
  -- the input of none is longer than 79 characters.
  pub history-IsValid :
      (env : Env) (old : Shell) (sys : System D W) (events : List Event)
      → IsValid (run (record sys { shell = shell_init env sys.fs sys.keyboard old }) events).1.shell
  history-IsValid env old sys events =
      run_from (record sys { shell = shell_init env sys.fs sys.keyboard old }) events
        (init-IsValid env sys.fs sys.keyboard old)
