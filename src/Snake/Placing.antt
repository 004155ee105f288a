-- ===== src/Snake/Placing.antt =====
-- The body of kernel/core/snake.c: its cells are on the grid, and no two of them are the same.
use flare_os.Prelude.{ℕ, zero, suc, ◌≤◌, ◌≡◌, refl, false, List, [], ◌∷◌, arith, take}
use flare_os.Snake.{Snake, Cell, occupied}
use flare_os.Snake.Grid.{On}

abbrev pub AllOn : Snake → List Cell → Type 0
AllOn s [] = Unit {0}
AllOn s (c ∷ body) = On s c × AllOn s body

abbrev pub Distinct : List Cell → Type 0
Distinct [] = Unit {0}
Distinct (c ∷ body) = (occupied c body ≡ false) × Distinct body

pub take-AllOn : (s : Snake) (n : ℕ) (body : List Cell) → AllOn s body → AllOn s (take n body)
take-AllOn s zero body a = tt
take-AllOn s (suc n) [] a = tt
take-AllOn s (suc n) (c ∷ body) a = (a.0, take-AllOn s n body a.1)

occupied-take :
    (c : Cell) (n : ℕ) (body : List Cell)
    → occupied c body ≡ false
    → occupied c (take n body) ≡ false
unfolding occupied
occupied-take c zero body h = refl
occupied-take c (suc n) [] h = refl
occupied-take c (suc n) (b ∷ body) h = ground (arith, occupied-take c n body)

pub take-Distinct : (n : ℕ) (body : List Cell) → Distinct body → Distinct (take n body)
take-Distinct zero body d = tt
take-Distinct (suc n) [] d = tt
take-Distinct (suc n) (c ∷ body) d = (occupied-take c n body d.0, take-Distinct n body d.1)

occupied-shorter :
    (c : Cell) (n k : ℕ) (body : List Cell)
    → occupied c (take k body) ≡ false
    → n ≤ k
    → occupied c (take n body) ≡ false
unfolding occupied
occupied-shorter c zero k body free h = refl
occupied-shorter c (suc n) zero body free h = absurd (omega arith)
occupied-shorter c (suc n) (suc k) [] free h = refl
occupied-shorter c (suc n) (suc k) (b ∷ body) free h = ground (arith, occupied-shorter c n k body)

-- Taking a step onto a free cell keeps the cells apart, whether the tail follows or stays.
pub push-Distinct :
    (c : Cell) (n k : ℕ) (body : List Cell)
    → Distinct body
    → occupied c (take k body) ≡ false
    → n ≤ suc k
    → Distinct (take n (c ∷ body))
push-Distinct c zero k body d free h = tt
push-Distinct c (suc n) k body d free h =
    (occupied-shorter c n k body free (omega arith), take-Distinct n body d)
