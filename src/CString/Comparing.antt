-- ===== src/CString/Comparing.antt =====
-- What the comparisons of kernel/core/string.c decide.
use flare_os.Prelude.{
  ℕ, zero, suc, ◌≤◌, ◌≡◌, refl, ◌↔◌, List, [], ◌∷◌, ◌++◌, some, arith, length, take,
}
use flare_os.Prelude.Int.{pos}
use flare_os.CString.{memcmp, strcmp, strncmp}
use flare_os.CString.Copying.{NoNul}

-- `strcmp` of two C strings is 0 exactly when their texts are equal.
pub strcmp-zero_iff :
    (a b r q : List ℕ)
    → NoNul a
    → NoNul b
    → (strcmp (a ++ 0 ∷ r) (b ++ 0 ∷ q) ≡ some (pos 0)) ↔ (a ≡ b)
unfolding strcmp
strcmp-zero_iff [] [] r q na nb = (λ _. refl, λ _. refl)
strcmp-zero_iff [] (y ∷ b) r q na nb = ground arith
strcmp-zero_iff (x ∷ a) [] r q na nb = ground arith
strcmp-zero_iff (x ∷ a) (y ∷ b) r q na nb = ground (arith, strcmp-zero_iff a b r q na.1 nb.1)

-- `strncmp` of two C strings is 0 exactly when the first `count` characters agree.
pub strncmp-zero_iff :
    (a b r q : List ℕ) (count : ℕ)
    → NoNul a
    → NoNul b
    → (strncmp (a ++ 0 ∷ r) (b ++ 0 ∷ q) count ≡ some (pos 0)) ↔ (take count a ≡ take count b)
unfolding strncmp
strncmp-zero_iff a b r q zero na nb = (λ _. refl, λ _. refl)
strncmp-zero_iff [] [] r q (suc count) na nb = (λ _. refl, λ _. refl)
strncmp-zero_iff [] (y ∷ b) r q (suc count) na nb = ground arith
strncmp-zero_iff (x ∷ a) [] r q (suc count) na nb = ground arith
strncmp-zero_iff (x ∷ a) (y ∷ b) r q (suc count) na nb =
    ground (arith, strncmp-zero_iff a b r q count na.1 nb.1)

-- `memcmp` is 0 exactly when the first `count` bytes agree, when both objects hold that many.
pub memcmp-zero_iff :
    (lhs rhs : List ℕ) (count : ℕ)
    → count ≤ length lhs
    → count ≤ length rhs
    → (memcmp lhs rhs count ≡ some (pos 0)) ↔ (take count lhs ≡ take count rhs)
unfolding memcmp
memcmp-zero_iff lhs rhs zero hl hr = (λ _. refl, λ _. refl)
memcmp-zero_iff [] rhs (suc count) hl hr = absurd (omega arith)
memcmp-zero_iff (a ∷ lhs) [] (suc count) hl hr = absurd (omega arith)
memcmp-zero_iff (a ∷ lhs) (b ∷ rhs) (suc count) hl hr =
    ground (arith, memcmp-zero_iff lhs rhs count (omega arith) (omega arith))
