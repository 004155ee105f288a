-- ===== src/CString.antt =====
-- kernel/core/string.c: the kernel's memory and string routines.
-- A pointer is the rest of its buffer, a list of bytes from the place that it points to up to the
-- end of the object. `none` is an access past that end, which C leaves undefined; the two pointers
-- of a call point into different objects. A returned buffer is the destination after the call.
pub mod Copying
pub mod Comparing
mod Tests
use flare_os.Prelude.{
  ℕ, zero, suc, ◌%◌, List, [], ◌∷◌, Option, none, some, ◌==◌, if◌then◌else◌, map_option,
}
use flare_os.Prelude.Int.{ℤ, pos, sub_ℕ}

pub memcpy : List ℕ → List ℕ → ℕ → Option (List ℕ)
memcpy d s zero = some d
memcpy [] s (suc count) = none
memcpy (x ∷ d) [] (suc count) = none
memcpy (x ∷ d) (y ∷ s) (suc count) = map_option (◌∷◌ y) (memcpy d s count)

pub memset : List ℕ → ℕ → ℕ → Option (List ℕ)
memset d value zero = some d
memset [] value (suc count) = none
memset (x ∷ d) value (suc count) = map_option (◌∷◌ (value % 256)) (memset d value count)

pub memcmp : List ℕ → List ℕ → ℕ → Option ℤ
memcmp lhs rhs zero = some (pos 0)
memcmp [] rhs (suc count) = none
memcmp (a ∷ lhs) [] (suc count) = none
memcmp (a ∷ lhs) (b ∷ rhs) (suc count) = if a == b then memcmp lhs rhs count else some (sub_ℕ a b)

pub strlen : List ℕ → Option ℕ
strlen [] = none
strlen (c ∷ s) = if c == 0 then some 0 else map_option suc (strlen s)

pub strcmp : List ℕ → List ℕ → Option ℤ
strcmp [] b = none
strcmp (x ∷ a) [] = none
strcmp (x ∷ a) (y ∷ b) =
    if x == 0 then some (sub_ℕ x y) else if x == y then strcmp a b else some (sub_ℕ x y)

pub strncmp : List ℕ → List ℕ → ℕ → Option ℤ
strncmp a b zero = some (pos 0)
strncmp [] b (suc count) = none
strncmp (x ∷ a) [] (suc count) = none
strncmp (x ∷ a) (y ∷ b) (suc count) =
    if x == 0 then some (sub_ℕ x y) else if x == y then strncmp a b count else some (sub_ℕ x y)

pub strcpy : List ℕ → List ℕ → Option (List ℕ)
strcpy [] s = none
strcpy (x ∷ d) [] = none
strcpy (x ∷ d) (y ∷ s) = if y == 0 then some (y ∷ d) else map_option (◌∷◌ y) (strcpy d s)

-- The second loop of `strncpy` fills what the first has left of `count` with NULs.
pub strncpy : List ℕ → List ℕ → ℕ → Option (List ℕ)
unfolding memset
strncpy d s zero = some d
strncpy d [] (suc count) = none
strncpy [] (y ∷ s) (suc count) = none
strncpy (x ∷ d) (y ∷ s) (suc count) =
    if y == 0 then memset (x ∷ d) 0 (suc count) else map_option (◌∷◌ y) (strncpy d s count)

-- Both `cat` functions walk to the NUL of the destination before they write.
pub strcat : List ℕ → List ℕ → Option (List ℕ)
unfolding strcpy
strcat [] s = none
strcat (x ∷ d) s = if x == 0 then strcpy (x ∷ d) s else map_option (◌∷◌ x) (strcat d s)

append_up_to : List ℕ → List ℕ → ℕ → Option (List ℕ)
append_up_to [] s count = none
append_up_to (x ∷ d) s zero = some (0 ∷ d)
append_up_to (x ∷ d) [] (suc count) = none
append_up_to (x ∷ d) (y ∷ s) (suc count) =
    if y == 0 then some (0 ∷ d) else map_option (◌∷◌ y) (append_up_to d s count)

pub strncat : List ℕ → List ℕ → ℕ → Option (List ℕ)
unfolding append_up_to
strncat [] s count = none
strncat (x ∷ d) s count =
    if x == 0 then append_up_to (x ∷ d) s count else map_option (◌∷◌ x) (strncat d s count)
