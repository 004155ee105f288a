-- ===== src/Snake/Session.antt =====
-- Any sequence of starts, keys, ticks and drawings of kernel/core/snake.c.
use flare_os.Prelude.{
  ℕ, ◌+◌, ◌≡◌, refl, inl, inr, Bool, true, false, not, ◌||◌, List, [], ◌∷◌, arith, ltb, Bool-cases,
  ltb,
}
use flare_os.Snake.{
  Snake, State, in_play, snake_start, key_by_state, snake_keyboard_event, snake_timer_tick,
  snake_render, snake_consume_result,
}
use flare_os.Snake.Grid.{Grid-resized, compute_grid-Grid}
use flare_os.Snake.Playing.{
  Round, IsValid, goes_on, Ready, same_dir-opposite, advance-IsValid, menu_key-IsValid,
  play_key-IsValid, inactive-IsValid,
}

-- What the shell calls, with the ticks that the call sees.
pub data Event : Type 0 where
  start : (now width height total required : ℕ) → Event
  key : (ticks : ℕ → ℕ) (code : ℕ) (pressed : Bool) → Event
  tick : (ticks : ℕ → ℕ) → Event
  render : Event
  consume : Event

unfoldable pub step : Snake → Event → Snake
step s (Event.start now width height total required) = snake_start now width height total required s
step s (Event.key ticks code pressed) = snake_keyboard_event ticks s code pressed
step s (Event.tick ticks) = snake_timer_tick ticks s
step s Event.render = snake_render s
step s Event.consume = (snake_consume_result s).1

abbrev pub run : Snake → List Event → Snake
run s [] = s
run s (e ∷ events) = run (step s e) events

turned-Ready : (s : Snake) → Ready s → Ready (record s { move_acc = 0; dir = s.next_dir })
turned-Ready s r =
    let round : Round (record s { move_acc = 0; dir = s.next_dir }) = record {
      on_grid = r.1.on_grid;
      distinct = r.1.distinct;
      food_on = r.1.food_on;
      points = r.1.points;
      not_back = same_dir-opposite s.next_dir;
      pace_from = r.1.pace_from;
      pace_to = r.1.pace_to;
    } in
    (Grid-resized s _ r.0 refl refl refl, round, r.2)

IsValid-Ready : (s : Snake) → IsValid s → s.active ≡ true → goes_on s.state ≡ true → Ready s
IsValid-Ready s v on going = (v.grid on, v.round on (ground (arith, going)), v.room on going)

-- The flags, the counters and the results that a game does not rest on.
Round-kept :
    (s : Snake) {dirty ready : Bool} {acc high : ℕ}
    → Round s
    → Round (record s { dirty = dirty; result_ready = ready; move_acc = acc; high_score = high })
Round-kept s r = record {
  on_grid = r.on_grid;
  distinct = r.distinct;
  food_on = r.food_on;
  points = r.points;
  not_back = r.not_back;
  pace_from = r.pace_from;
  pace_to = r.pace_to;
}

kept-IsValid :
    (s : Snake) (dirty ready : Bool) (acc high : ℕ)
    → IsValid s
    → IsValid (record s { dirty = dirty; result_ready = ready; move_acc = acc; high_score = high })
kept-IsValid s dirty ready acc high v = record {
  grid = λ on. Grid-resized s _ (v.grid on) refl refl refl;
  round = λ on i. Round-kept s (v.round on i);
  room = λ on going. v.room on going;
}

tick-IsValid : (ticks : ℕ → ℕ) (s : Snake) → IsValid s → IsValid (snake_timer_tick ticks s)
unfolding snake_timer_tick
tick-IsValid ticks s v = elim (Bool-cases (not s.active || not (in_play s.state))) [
  | inl idle ↦ rw idle v
  | inr on ↦
      let ready = IsValid-Ready s v (ground (arith, on)) (ground (arith, on)) in
      elim (Bool-cases (ltb (s.move_acc + 1) s.tick_div)) [
        | inl early ↦
            rw (on, early) (kept-IsValid s s.dirty s.result_ready (s.move_acc + 1) s.high_score v)
        | inr due ↦ rw (on, due) (advance-IsValid ticks _ (turned-Ready s ready))
      ]
]

by_state-IsValid :
    (ticks : ℕ → ℕ) (s : Snake) (code : ℕ) (state : State)
    → s.state ≡ state
    → IsValid s
    → s.active ≡ true
    → IsValid (key_by_state ticks s code state)
unfolding key_by_state
by_state-IsValid ticks s code State.splash is v on = menu_key-IsValid ticks s code (v.grid on) v
by_state-IsValid ticks s code State.game_over is v on = menu_key-IsValid ticks s code (v.grid on) v
by_state-IsValid ticks s code State.play is v on =
    play_key-IsValid s code (IsValid-Ready s v on (rw is refl))
by_state-IsValid ticks s code State.paused is v on =
    play_key-IsValid s code (IsValid-Ready s v on (rw is refl))

key-IsValid :
    (ticks : ℕ → ℕ) (s : Snake) (code : ℕ) (pressed : Bool)
    → IsValid s
    → IsValid (snake_keyboard_event ticks s code pressed)
unfolding snake_keyboard_event
key-IsValid ticks s code pressed v = elim (Bool-cases (not s.active || not pressed)) [
  | inl idle ↦ rw idle v
  | inr on ↦ rw on (by_state-IsValid ticks s code s.state refl v (ground (arith, on)))
]

start-IsValid :
    (now width height total required : ℕ) (s : Snake)
    → IsValid (snake_start now width height total required s)
unfolding snake_start
start-IsValid now width height total required s = record {
  grid = λ _. Grid-resized _ _ (compute_grid-Grid width height _) refl refl refl;
  round = λ _ i. absurd (ground (arith, i));
  room = λ _ i. absurd (ground (arith, i));
}

render-IsValid : (s : Snake) → IsValid s → IsValid (snake_render s)
unfolding snake_render
render-IsValid s v = elim (Bool-cases (not s.active)) [
  | inl off ↦ rw off v
  | inr on ↦ rw on (kept-IsValid s false s.result_ready s.move_acc _ v)
]

consume-IsValid : (s : Snake) → IsValid s → IsValid (snake_consume_result s).1
unfolding snake_consume_result
consume-IsValid s v = elim (Bool-cases (not s.result_ready)) [
  | inl none_yet ↦ rw (none_yet, snake_consume_result) v
  | inr ready ↦
      rw (ready, snake_consume_result) (kept-IsValid s s.dirty false s.move_acc s.high_score v)
]

step-IsValid : (s : Snake) (e : Event) → IsValid s → IsValid (step s e)
unfolding step
step-IsValid s (Event.start now width height total required) v =
    start-IsValid now width height total required s
step-IsValid s (Event.key ticks code pressed) v = key-IsValid ticks s code pressed v
step-IsValid s (Event.tick ticks) v = tick-IsValid ticks s v
step-IsValid s Event.render v = render-IsValid s v
step-IsValid s Event.consume v = consume-IsValid s v

run_from : (s : Snake) (events : List Event) → IsValid s → IsValid (run s events)
run_from s [] v = v
run_from s (e ∷ events) v = run_from (step s e) events (step-IsValid s e v)

-- Whatever sequence of starts, keys, ticks and drawings follows the power-on state: while a game is
-- active its grid fits the arrays, and from the first key of a round on the snake and the food are
-- on the grid, the snake covers no cell twice, it has four cells and one for each point, it is not
-- about to turn back on itself, and it moves every 2 to 6 ticks.
pub run-IsValid : (s : Snake) (events : List Event) → s.active ≡ false → IsValid (run s events)
run-IsValid s events off = run_from s events (inactive-IsValid s off)
