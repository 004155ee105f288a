-- ===== src/Snake/Tests.antt =====
-- A game on a screen of 640 by 480, and the theorems at it.
use flare_os.Prelude.{◌≡◌, refl, true, false, List, [], ◌∷◌}
use flare_os.Key
use flare_os.Snake.{Snake, State, Direction, compute_grid}
use flare_os.Snake.Playing.{IsValid}
use flare_os.Snake.Session.{Event, run, run-IsValid}

abbrev powered_on : Snake
powered_on = record {
  active = false;
  dirty = false;
  result_ready = false;
  state = State.splash;
  dir = Direction.dir_up;
  next_dir = Direction.dir_up;
  move_acc = 0;
  tick_div = 0;
  body = [];
  food = (0, 0);
  score = 0;
  high_score = 0;
  last_score = 0;
  rng = 0;
  cell_size = 0;
  cols = 0;
  rows = 0;
}

-- A start, the key that begins a round, and seven ticks.
abbrev events : List Event
events =
    Event.start 0 640 480 0 0
    ∷ Event.key (λ n. n) Key.enter true
    ∷ Event.tick (λ n. n)
    ∷ Event.tick (λ n. n)
    ∷ []

sized : (compute_grid 640 480 powered_on).cols ≡ 40
unfolding compute_grid
sized = refl

run-IsValid_example : IsValid (run powered_on events)
run-IsValid_example = run-IsValid powered_on events refl
