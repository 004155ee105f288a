-- ===== src/Snake.antt =====
-- kernel/core/snake.c: the game's grid, snake, food and keys. Its drawing is left out.
-- The first `g_len` entries of `g_x` and `g_y` are the list `body`, the head first, so `g_len` is
-- its length. A coordinate that the source makes negative is `none`. `g_ticks` changes while the
-- code runs: the ticks that the calls of `rng_next` see, one by one, are an argument.
pub mod Grid
pub mod Placing
pub mod Playing
pub mod Session
mod Tests
use flare_os.Prelude.{
  ℕ, zero, suc, ◌+◌, ◌-◌, ◌*◌, ◌/◌, ◌%◌, ◌^◌, bit_xor, Bool, true, false, not, ◌&&◌, ◌||◌, List, [],
  ◌∷◌, Option, none, some, ltb, leb, ◌==◌, if◌then◌else◌, length, take, get_or, min,
}
use flare_os.Key

pub data State : Type 0 where
  splash : State
  play : State
  paused : State
  game_over : State

pub data Direction : Type 0 where
  dir_up : Direction
  dir_right : Direction
  dir_down : Direction
  dir_left : Direction

abbrev pub Cell : Type 0
Cell = ℕ × ℕ

pub record Snake : Type 0 where
  pub active : Bool
  pub dirty : Bool
  pub result_ready : Bool
  pub state : State
  pub dir : Direction
  pub next_dir : Direction
  pub move_acc : ℕ
  pub tick_div : ℕ
  pub body : List Cell
  pub food : Cell
  pub score : ℕ
  pub high_score : ℕ
  pub last_score : ℕ
  pub rng : ℕ
  pub cell_size : ℕ
  pub cols : ℕ
  pub rows : ℕ

abbrev pub in_play : State → Bool
in_play State.play = true
in_play _ = false

abbrev is_over : State → Bool
is_over State.game_over = true
is_over _ = false

-- Between a start from the splash screen and the end of the session.
abbrev pub in_round : State → Bool
in_round State.splash = false
in_round _ = true

abbrev pub same_cell : Cell → Cell → Bool
same_cell a b = a.0 == b.0 && a.1 == b.1

unfoldable pub occupied : Cell → List Cell → Bool
occupied c [] = false
occupied c (b ∷ body) = same_cell b c || occupied c body

-- The body's length where the source multiplies into a `u16`.
abbrev pub max_cells : Snake → ℕ
max_cells s = s.cols * s.rows % 2 ^ 16

unfoldable pub rng_next : ℕ → ℕ → ℕ
rng_next rng ticks = (rng * 1664525 + 1013904223 + ticks % 2 ^ 32) % 2 ^ 32

-- The attempts of `place_food` that are left; each calls `rng_next` twice.
unfoldable pub place_from : (ℕ → ℕ) → Snake → ℕ → ℕ → ℕ → Cell × ℕ
place_from ticks s calls rng zero = ((0, 0), rng)
place_from ticks s calls rng (suc left) =
    let rng1 = rng_next rng (ticks calls) in
    let rng2 = rng_next rng1 (ticks (calls + 1)) in
    let c : Cell = (rng1 % s.cols % 256, rng2 % s.rows % 256) in
    let rest = place_from ticks s (calls + 2) rng2 left in
    if not (occupied c s.body) then (c, rng2) else rest

unfoldable pub place_food : (ℕ → ℕ) → Snake → Snake
place_food ticks s =
    let (c, rng) = place_from ticks s 0 s.rng 4096 in
    if leb (max_cells s) (length s.body) then s else record s { food = c; rng = rng }

abbrev clamp : ℕ → ℕ → ℕ → ℕ
clamp low high n =
    if ltb high (if ltb n low then low else n) then high else if ltb n low then low else n

-- `video_width` and `video_height`; the height less the header may be negative, and is then below
-- every lower limit, as 0 is.
unfoldable pub compute_grid : ℕ → ℕ → Snake → Snake
compute_grid aw ah s =
    let cw = aw / 40 in
    let ch = (ah - 16) / 23 in
    let size = clamp 8 32 (if ltb cw ch then cw else ch) in
    if aw == 0 || ah == 0 then record s { cell_size = 8; cols = 40; rows = 23 } else record s {
      cell_size = size;
      cols = clamp 10 96 (aw / size);
      rows = clamp 10 64 ((ah - 16) / size);
    }

unfoldable pub reset_round : (ℕ → ℕ) → Snake → Snake
reset_round ticks s =
    let cx = s.cols / 2 in
    let cy = s.rows / 2 % 256 in
    place_food ticks (record s {
      dir = Direction.dir_right;
      next_dir = Direction.dir_right;
      move_acc = 0;
      score = 0;
      tick_div = 6;
      body =
          (cx % 256, cy) ∷ ((cx - 1) % 256, cy) ∷ ((cx - 2) % 256, cy) ∷ ((cx - 3) % 256, cy) ∷ [];
    })

unfoldable pub finish_session : Snake → Snake
finish_session s = record s {
  active = false;
  dirty = false;
  result_ready = true;
  last_score = s.score;
}

unfoldable pub snake_start : (now width height total required : ℕ) → Snake → Snake
snake_start now aw ah total required s =
    let s1 =
      compute_grid aw ah (record s { rng = bit_xor (bit_xor now total) required % 2 ^ 32 }) in
    record s1 {
      active = true;
      dirty = true;
      result_ready = false;
      state = State.splash;
      score = 0;
      last_score = 0;
    }

abbrev pub opposite : Direction → Direction
opposite Direction.dir_up = Direction.dir_down
opposite Direction.dir_right = Direction.dir_left
opposite Direction.dir_down = Direction.dir_up
opposite Direction.dir_left = Direction.dir_right

abbrev pub same_dir : Direction → Direction → Bool
same_dir Direction.dir_up Direction.dir_up = true
same_dir Direction.dir_right Direction.dir_right = true
same_dir Direction.dir_down Direction.dir_down = true
same_dir Direction.dir_left Direction.dir_left = true
same_dir _ _ = false

abbrev pub leaves : ℕ → Bool
leaves key = key == b'q' || key == Key.esc

abbrev pub starts : ℕ → Bool
starts key = key == Key.enter || key == b' '

-- The keys of the splash screen and of the screen after a game.
unfoldable pub menu_key : (ℕ → ℕ) → Snake → ℕ → Snake
menu_key ticks s key =
    if leaves key
    then finish_session s
    else if starts key
    then record (reset_round ticks s) { state = State.play; dirty = true }
    else s

-- The next direction, from the present one, the one that was to be next, and a key.
unfoldable pub turned : Direction → Direction → ℕ → Direction
turned dir next key =
    if key == b'w' && not (same_dir dir Direction.dir_down)
    then Direction.dir_up
    else if key == b'd' && not (same_dir dir Direction.dir_left)
    then Direction.dir_right
    else if key == b's' && not (same_dir dir Direction.dir_up)
    then Direction.dir_down
    else if key == b'a' && not (same_dir dir Direction.dir_right)
    then Direction.dir_left
    else next

unfoldable pub play_key : Snake → ℕ → Snake
play_key s key =
    if leaves key
    then finish_session s
    else if key == b'p'
    then record s { state = if in_play s.state then State.paused else State.play; dirty = true }
    else if not (in_play s.state)
    then s
    else record s { next_dir = turned s.dir s.next_dir key }

unfoldable pub key_by_state : (ℕ → ℕ) → Snake → ℕ → State → Snake
key_by_state ticks s key State.splash = menu_key ticks s key
key_by_state ticks s key State.game_over = menu_key ticks s key
key_by_state ticks s key State.play = play_key s key
key_by_state ticks s key State.paused = play_key s key

unfoldable pub snake_keyboard_event : (ℕ → ℕ) → Snake → ℕ → Bool → Snake
snake_keyboard_event ticks s key pressed =
    if not s.active || not pressed then s else key_by_state ticks s key s.state

abbrev lose : Snake → Snake
lose s = record s { state = State.game_over; dirty = true }

-- The cell beside `c`, unless a coordinate would be negative.
unfoldable pub beside : Cell → Direction → Option Cell
beside c Direction.dir_up = if c.1 == 0 then none else some (c.0, c.1 - 1)
beside c Direction.dir_right = some (c.0 + 1, c.1)
beside c Direction.dir_down = some (c.0, c.1 + 1)
beside c Direction.dir_left = if c.0 == 0 then none else some (c.0 - 1, c.1)

-- What follows when the snake has grown by the food.
unfoldable pub grown : (ℕ → ℕ) → Snake → Snake
grown ticks s =
    let score = (s.score + 1) % 2 ^ 32 in
    let s1 : Snake = record s {
      score = score;
      tick_div = if score % 5 == 0 && ltb 2 s.tick_div then s.tick_div - 1 else s.tick_div;
    } in
    if leb (max_cells s) (length s.body)
    then lose s1
    else record (place_food ticks s1) { dirty = true }

unfoldable pub move_to : (ℕ → ℕ) → Snake → Cell → Snake
move_to ticks s c =
    let grow = same_cell c s.food in
    let len = length s.body in
    let nl = if grow then len + 1 else len in
    let s1 : Snake = record s { body = take (min nl (max_cells s)) (c ∷ s.body) } in
    if occupied c (take (if grow then len else len - 1) s.body)
    then lose s
    else if grow
    then grown ticks s1
    else s1

unfoldable pub advance : (ℕ → ℕ) → Snake → Snake
advance ticks s = elim (beside (get_or s.body 0 (0, 0)) s.dir) [
  | none ↦ lose s
  | some c ↦ if leb s.cols c.0 || leb s.rows c.1 then lose s else move_to ticks s c
]

unfoldable pub snake_timer_tick : (ℕ → ℕ) → Snake → Snake
snake_timer_tick ticks s =
    if not s.active || not (in_play s.state)
    then s
    else if ltb (s.move_acc + 1) s.tick_div
    then record s { move_acc = s.move_acc + 1 }
    else advance ticks (record s { move_acc = 0; dir = s.next_dir })

-- What `snake_render` changes beside the screen.
unfoldable pub snake_render : Snake → Snake
snake_render s =
    let best = is_over s.state && ltb s.high_score s.score in
    if not s.active
    then s
    else record s { dirty = false; high_score = if best then s.score else s.high_score }

unfoldable pub snake_consume_result : Snake → Option ℕ × Snake
snake_consume_result s =
    if not s.result_ready then (none, s) else (some s.last_score, record s { result_ready = false })
