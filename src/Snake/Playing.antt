-- ===== src/Snake/Playing.antt =====
-- What holds throughout a game of kernel/core/snake.c.
use flare_os.Prelude.{
  ℕ, suc, ◌+◌, ◌-◌, ◌*◌, ◌/◌, ◌%◌, ◌^◌, ◌≤◌, ◌<◌, ◌≡◌, refl, min, inl, inr, Bool, true, false, ◌&&◌,
  ◌||◌, [], ◌∷◌, arith, length, leb, ltb, ◌==◌, if◌then◌else◌, take, get_or, length-take,
  Bool-cases, Option-cases,
}
use flare_os.Snake.{
  Snake, State, Direction, Cell, in_play, in_round, occupied, same_cell, max_cells, place_food,
  reset_round, finish_session, opposite, same_dir, menu_key, turned, play_key, lose, beside, grown,
  move_to, advance, leaves, starts,
}
use flare_os.Snake.Grid.{Grid, Grid-resized, On, place_food_changes, Grid-max_cells, Grid-cells}
use flare_os.Snake.Placing.{AllOn, Distinct, take-AllOn, push-Distinct}

-- A snake of four cells and one for each point, on the grid and on no cell twice, that is not about
-- to turn back on itself.
pub record Round (s : Snake) : Type 0 where
  pub on_grid : AllOn s s.body
  pub distinct : Distinct s.body
  pub food_on : On s s.food
  pub points : s.score + 4 ≡ length s.body
  pub not_back : same_dir s.next_dir (opposite s.dir) ≡ false
  pub pace_from : 2 ≤ s.tick_div
  pub pace_to : s.tick_div ≤ 6

abbrev pub goes_on : State → Bool
goes_on State.play = true
goes_on State.paused = true
goes_on _ = false

pub record IsValid (s : Snake) : Type 0 where
  pub grid : s.active ≡ true → Grid s
  pub round : s.active ≡ true → in_round s.state ≡ true → Round s
  pub room : s.active ≡ true → goes_on s.state ≡ true → length s.body < s.cols * s.rows

-- A game that can go on, whatever its state says.
abbrev pub Ready : Snake → Type 0
Ready s = Grid s × Round s × (length s.body < s.cols * s.rows)

Ready-IsValid : (s : Snake) → Ready s → IsValid s
Ready-IsValid s r = record { grid = λ _. r.0; round = λ _ _. r.1; room = λ _ _. r.2 }

Round-shown :
    (s : Snake) {state : State} {dirty : Bool}
    → Round s
    → Round (record s { state = state; dirty = dirty })
Round-shown s r = record {
  on_grid = r.on_grid;
  distinct = r.distinct;
  food_on = r.food_on;
  points = r.points;
  not_back = r.not_back;
  pace_from = r.pace_from;
  pace_to = r.pace_to;
}

-- Ready whatever the flags are that only the screen and the state machine read.
Ready-shown :
    (s : Snake) {state : State} {dirty : Bool}
    → Ready s
    → Ready (record s { state = state; dirty = dirty })
Ready-shown s r = (Grid-resized s _ r.0 refl refl refl, Round-shown s r.1, r.2)

place_food-Ready :
    (ticks : ℕ → ℕ) (s : Snake)
    → Grid s
    → length s.body < s.cols * s.rows
    → AllOn s s.body
    → Distinct s.body
    → s.score + 4 ≡ length s.body
    → same_dir s.next_dir (opposite s.dir) ≡ false
    → 2 ≤ s.tick_div
    → s.tick_div ≤ 6
    → Ready (place_food ticks s)
place_food-Ready ticks s g room a d p n f t =
    let (c, rng, same, on) = place_food_changes ticks s g room in
    let round : Round (record s { food = c; rng = rng }) = record {
      on_grid = a;
      distinct = d;
      food_on = on;
      points = p;
      not_back = n;
      pace_from = f;
      pace_to = t;
    } in
    rw same (Grid-resized s _ g refl refl refl, round, room)

row-Distinct :
    (a b c d y : ℕ) → b < a → c < b → d < c → Distinct ((a, y) ∷ (b, y) ∷ (c, y) ∷ (d, y) ∷ [])
unfolding occupied
row-Distinct a b c d y h i j = (ground arith, (ground arith, (ground arith, (refl, tt))))

column-On : (s : Snake) (n : ℕ) → Grid s → On s ((s.cols / 2 - n) % 256, s.rows / 2 % 256)
column-On s n g = (omega (arith, g.some_cols, g.cols_fit), omega (arith, g.some_rows, g.rows_fit))

reset_round-Ready : (ticks : ℕ → ℕ) (s : Snake) → Grid s → Ready (reset_round ticks s)
unfolding reset_round
reset_round-Ready ticks s g =
    place_food-Ready ticks _ (Grid-resized s _ g refl refl refl) (omega (arith, (Grid-cells s g).0))
      (
        (omega (arith, g.some_cols, g.cols_fit), omega (arith, g.some_rows, g.rows_fit)),
        (column-On s 1 g, (column-On s 2 g, (column-On s 3 g, tt))),
      )
      (row-Distinct _ _ _ _ _ (ground (arith, g)) (ground (arith, g)) (ground (arith, g))) refl refl
      (omega arith) (omega arith)

-- A session that is over has nothing to keep.
pub inactive-IsValid : (s : Snake) → s.active ≡ false → IsValid s
inactive-IsValid s off = record {
  grid = λ on. absurd (ground (arith, on, off));
  round = λ on _. absurd (ground (arith, on, off));
  room = λ on _. absurd (ground (arith, on, off));
}

pub menu_key-IsValid :
    (ticks : ℕ → ℕ) (s : Snake) (key : ℕ) → Grid s → IsValid s → IsValid (menu_key ticks s key)
unfolding menu_key finish_session
menu_key-IsValid ticks s key g v = elim (Bool-cases (leaves key)) [
  | inl h ↦ rw h (inactive-IsValid (finish_session s) refl)
  | inr h ↦ elim (Bool-cases (starts key)) [
    | inl k ↦
        rw (h, k)
          (Ready-IsValid (record (reset_round ticks s) { state = State.play; dirty = true })
            (Ready-shown (reset_round ticks s) (reset_round-Ready ticks s g)))
    | inr k ↦ rw (h, k) v
  ]
]

turned-not_back :
    (dir next : Direction) (key : ℕ)
    → same_dir next (opposite dir) ≡ false
    → same_dir (turned dir next key) (opposite dir) ≡ false
unfolding turned
turned-not_back Direction.dir_up next key h = ground arith
turned-not_back Direction.dir_right next key h = ground arith
turned-not_back Direction.dir_down next key h = ground arith
turned-not_back Direction.dir_left next key h = ground arith

turned-Ready :
    (s : Snake) (e : Direction)
    → Ready s
    → same_dir e (opposite s.dir) ≡ false
    → Ready (record s { next_dir = e })
turned-Ready s e r free =
    let round : Round (record s { next_dir = e }) = record {
      on_grid = r.1.on_grid;
      distinct = r.1.distinct;
      food_on = r.1.food_on;
      points = r.1.points;
      not_back = free;
      pace_from = r.1.pace_from;
      pace_to = r.1.pace_to;
    } in
    (Grid-resized s _ r.0 refl refl refl, round, r.2)

pub play_key-IsValid : (s : Snake) (key : ℕ) → Ready s → IsValid (play_key s key)
unfolding play_key finish_session
play_key-IsValid s key r = elim (Bool-cases (leaves key)) [
  | inl h ↦ rw h (inactive-IsValid (finish_session s) refl)
  | inr h ↦ elim (Bool-cases (key == b'p')) [
    | inl k ↦ rw (h, k) (Ready-IsValid _ (Ready-shown s r))
    | inr k ↦ elim (Bool-cases (in_play s.state)) [
      | inl p ↦
          rw (h, k, p)
            (Ready-IsValid _ (
              turned-Ready s (turned s.dir s.next_dir key) r
                (turned-not_back s.dir s.next_dir key r.1.not_back)))
      | inr p ↦ rw (h, k, p) (Ready-IsValid s r)
    ]
  ]
]

lose-IsValid : (s : Snake) → Grid s → Round s → IsValid (lose s)
lose-IsValid s g r = record {
  grid = λ _. Grid-resized s _ g refl refl refl;
  round = λ _ _. Round-shown s r;
  room = λ _ on. absurd (ground (arith, on));
}

-- A snake that has eaten, before its point is counted.
record Fed (s : Snake) : Type 0 where
  on_grid : AllOn s s.body
  distinct : Distinct s.body
  food_on : On s s.food
  points : s.score + 5 ≡ length s.body
  fits : length s.body ≤ s.cols * s.rows
  not_back : same_dir s.next_dir (opposite s.dir) ≡ false
  pace_from : 2 ≤ s.tick_div
  pace_to : s.tick_div ≤ 6

abbrev next_pace : ℕ → ℕ → ℕ
next_pace score pace = if score % 5 == 0 && ltb 2 pace then pace - 1 else pace

pace-bounds :
    (score pace : ℕ) → 2 ≤ pace → pace ≤ 6 → (2 ≤ next_pace score pace) × (next_pace score pace ≤ 6)
pace-bounds score pace low high = ground arith

grown-IsValid : (ticks : ℕ → ℕ) (s : Snake) → Grid s → Fed s → IsValid (grown ticks s)
unfolding grown
grown-IsValid ticks s g f =
    let score = (s.score + 1) % 2 ^ 32 in
    let s1 : Snake = record s { score = score; tick_div = next_pace score s.tick_div } in
    let counted : score + 4 ≡ length s.body = omega (arith, f.points, f.fits, (Grid-cells s g).1) in
    let pace = pace-bounds score s.tick_div f.pace_from f.pace_to in
    let g1 = Grid-resized s s1 g refl refl refl in
    let round : Round s1 = record {
      on_grid = f.on_grid;
      distinct = f.distinct;
      food_on = f.food_on;
      points = counted;
      not_back = f.not_back;
      pace_from = pace.0;
      pace_to = pace.1;
    } in
    elim (Bool-cases (leb (max_cells s) (length s.body))) [
      | inl full ↦ rw full (lose-IsValid s1 g1 round)
      | inr room ↦
          let ready =
            place_food-Ready ticks s1 g1 (ground (arith, room, Grid-max_cells s g)) f.on_grid
              f.distinct counted f.not_back pace.0 pace.1 in
          rw room (Ready-IsValid _ (Ready-shown (place_food ticks s1) ready))
    ]

move_to-IsValid :
    (ticks : ℕ → ℕ) (s : Snake) (c : Cell) → Ready s → On s c → IsValid (move_to ticks s c)
unfolding move_to
move_to-IsValid ticks s c r on = elim (Bool-cases (same_cell c s.food)) [
  | inl eats ↦ elim (Bool-cases (occupied c (take (length s.body) s.body))) [
    | inl hit ↦ rw (eats, hit) (lose-IsValid s r.0 r.1)
    | inr free ↦
        let n = min (length s.body + 1) (max_cells s) in
        let all : n ≡ suc (length s.body) = omega (arith, Grid-max_cells s r.0, r.2) in
        let s1 : Snake = record s { body = take n (c ∷ s.body) } in
        let len : length s1.body ≡ suc (length s.body) =
          omega (arith, all, length-take n (c ∷ s.body)) in
        let fed : Fed s1 = record {
          on_grid = take-AllOn s n (c ∷ s.body) (on, r.1.on_grid);
          distinct =
              push-Distinct c n (length s.body) s.body r.1.distinct free (omega (arith, all));
          food_on = r.1.food_on;
          points = omega (arith, len, r.1.points);
          fits = omega (arith, len, r.2);
          not_back = r.1.not_back;
          pace_from = r.1.pace_from;
          pace_to = r.1.pace_to;
        } in
        rw (eats, free) (grown-IsValid ticks s1 (Grid-resized s s1 r.0 refl refl refl) fed)
  ]
  | inr goes ↦ elim (Bool-cases (occupied c (take (length s.body - 1) s.body))) [
    | inl hit ↦ rw (goes, hit) (lose-IsValid s r.0 r.1)
    | inr free ↦
        let n = min (length s.body) (max_cells s) in
        let all : n ≡ length s.body = omega (arith, Grid-max_cells s r.0, r.2) in
        let s1 : Snake = record s { body = take n (c ∷ s.body) } in
        let len : length s1.body ≡ length s.body = omega (arith, all, length-take n (c ∷ s.body)) in
        let round : Round s1 = record {
          on_grid = take-AllOn s n (c ∷ s.body) (on, r.1.on_grid);
          distinct =
              push-Distinct c n (length s.body - 1) s.body r.1.distinct free (omega (arith, all));
          food_on = r.1.food_on;
          points = omega (arith, len, r.1.points);
          not_back = r.1.not_back;
          pace_from = r.1.pace_from;
          pace_to = r.1.pace_to;
        } in
        rw (goes, free)
          (Ready-IsValid s1 (Grid-resized s s1 r.0 refl refl refl, round, omega (arith, len, r.2)))
  ]
]

pub same_dir-opposite : (d : Direction) → same_dir d (opposite d) ≡ false
same_dir-opposite d = ground arith

pub advance-IsValid : (ticks : ℕ → ℕ) (s : Snake) → Ready s → IsValid (advance ticks s)
unfolding advance
advance-IsValid ticks s r = elim (Option-cases (beside (get_or s.body 0 (0, 0)) s.dir)) [
  | inl edge ↦ rw (edge, advance) (lose-IsValid s r.0 r.1)
  | inr (c, to) ↦ elim (Bool-cases (leb s.cols c.0 || leb s.rows c.1)) [
    | inl edge ↦ rw (to, advance, edge) (lose-IsValid s r.0 r.1)
    | inr on ↦ rw (to, advance, on) (move_to-IsValid ticks s c r (ground arith, ground arith))
  ]
]
