-- ===== src/Memory/Tests.antt =====
-- Runs of kernel/core/memory.c, and the theorems at concrete requests.
use flare_os.Prelude.{◌≡◌, [], ◌∷◌, arith, refl}
use flare_os.Memory.{heap_base, memory_init, kmalloc_all}
use flare_os.Memory.Regions.{Stacked, kmalloc_all-Stacked}

addresses :
    (kmalloc_all memory_init (1 ∷ 16 ∷ 17 ∷ 5 ∷ [])).0
    ≡ 0x180000 ∷ 0x180010 ∷ 0x180020 ∷ 0x180040 ∷ []
unfolding kmalloc_all memory_init
addresses = refl

kmalloc_all-Stacked_example :
    Stacked heap_base (100 ∷ 0 ∷ 7 ∷ []) (kmalloc_all memory_init (100 ∷ 0 ∷ 7 ∷ [])).0
unfolding memory_init
kmalloc_all-Stacked_example = kmalloc_all-Stacked memory_init (100 ∷ 0 ∷ 7 ∷ []) refl (omega arith)
