-- ===== src/Paging/Tests.antt =====
-- The page tables of a machine with 64 MiB and a frame buffer at 0xFD000000.
use flare_os.Prelude.{refl, ℕ, ◌*◌, ◌≡◌, ◌⊎◌, List, [], none, some, arith}
use flare_os.Paging.{Paging, BootInfo, paging_init, paging_map_range, page_base, rounds_for}
use flare_os.Paging.Walking.{Tree}
use flare_os.Paging.Ranges.{MapsRange}
use flare_os.Paging.Enough.{paging_init-returns}
use flare_os.Paging.Starting.{MapsMemory, first_table, first-Tree, paging_map_range-MapsRange}

abbrev boot : BootInfo
boot = record {
  total_memory = 64 * 1024 * 1024;
  framebuffer_addr = 0xfd000000;
  framebuffer_pitch = 4096;
  framebuffer_height = 768;
}

abbrev powered_on : Paging
powered_on = record { page_pool = λ _ _. 0; page_pool_used = 0; pml4 = 0; pages_mapped = 0 }

paging_map_range-MapsRange_example :
    (paging_map_range 384 (first_table powered_on) 0x40000000 0x100000 0x300000 2 ≡ none)
    ⊎ ((s' : Paging) × (path' : ℕ → List ℕ) × (paging_map_range 384
            (first_table powered_on)
            0x40000000
            0x100000
            0x300000
            2
          ≡ some s')
        × Tree 384 s' path'
        × MapsRange 384
            (first_table powered_on)
            (page_base 0x40000000)
            (page_base 0x100000)
            (rounds_for 0x40000000 0x300000)
            s')
paging_map_range-MapsRange_example =
    paging_map_range-MapsRange 384 (first_table powered_on) (λ _. []) 0x40000000 0x100000 0x300000 2
      (first-Tree 384 powered_on) (omega arith) (omega arith)

abbrev without_frame : BootInfo
without_frame = record boot { framebuffer_addr = 0 }

paging_init-returns_example :
    (s' : Paging) × (paging_init 384 powered_on without_frame ≡ some s')
    × MapsMemory 384 without_frame s'
paging_init-returns_example = paging_init-returns 384 powered_on without_frame refl
