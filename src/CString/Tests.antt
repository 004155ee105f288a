-- ===== src/CString/Tests.antt =====
-- Runs of the string routines, and the theorems at concrete buffers.
use flare_os.Prelude.{ℕ, ◌≡◌, ◌↔◌, refl, List, [], ◌∷◌, some, arith}
use flare_os.Prelude.Int.{pos}
use flare_os.CString.{strcpy, strncpy, strcmp, memset}
use flare_os.CString.Comparing.{strcmp-zero_iff}

strcpy_test : strcpy (9 ∷ 9 ∷ 9 ∷ 9 ∷ []) (1 ∷ 2 ∷ 0 ∷ []) ≡ some (1 ∷ 2 ∷ 0 ∷ 9 ∷ [])
unfolding strcpy
strcpy_test = refl

strncpy_test : strncpy (9 ∷ 9 ∷ 9 ∷ 9 ∷ []) (1 ∷ 0 ∷ []) 3 ≡ some (1 ∷ 0 ∷ 0 ∷ 9 ∷ [])
unfolding strncpy memset
strncpy_test = refl

strcmp-zero_iff_example :
    (strcmp (5 ∷ 0 ∷ []) (5 ∷ 0 ∷ 7 ∷ []) ≡ some (pos 0)) ↔ (◌≡◌ {A = List ℕ} (5 ∷ []) (5 ∷ []))
strcmp-zero_iff_example = strcmp-zero_iff (5 ∷ []) (5 ∷ []) [] (7 ∷ []) (omega arith) (omega arith)
