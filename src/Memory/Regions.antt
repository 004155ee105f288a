-- ===== src/Memory/Regions.antt =====
-- Which memory the callers of kernel/core/memory.c own.
use flare_os.Prelude.{ℕ, ◌+◌, ◌%◌, ◌^◌, ◌≤◌, ◌<◌, ◌≡◌, List, [], ◌∷◌, arith}
use flare_os.Memory.{Heap, heap_base, kmalloc, kmalloc_all}

-- What the requests take, each rounded up to 16.
abbrev pub total : List ℕ → ℕ
total [] = 0
total (size ∷ sizes) = size + 15 + total sizes

-- Each region lies at or above `low`, is aligned, and ends before the next begins.
abbrev pub Stacked : ℕ → List ℕ → List ℕ → Type 0
Stacked low [] ptrs = Unit {0}
Stacked low (size ∷ sizes) [] = ⊥
Stacked low (size ∷ sizes) (ptr ∷ ptrs) =
    (low ≤ ptr) × (ptr % 16 ≡ 0) × Stacked (ptr + size) sizes ptrs

Stacked-mono :
    {low high : ℕ} (sizes ptrs : List ℕ)
    → low ≤ high
    → Stacked high sizes ptrs
    → Stacked low sizes ptrs
Stacked-mono [] ptrs h s = tt
Stacked-mono (size ∷ sizes) [] h s = s
Stacked-mono (size ∷ sizes) (ptr ∷ ptrs) h s = (omega arith, s.1, s.2)

-- From an aligned heap, requests that together stay below 4 GiB get regions that are aligned, lie
-- above all that was taken before, and do not overlap.
pub kmalloc_all-Stacked :
    (h : Heap) (sizes : List ℕ)
    → h.heap_offset % 16 ≡ 0
    → h.heap_offset + total sizes < 2 ^ 32
    → Stacked (heap_base + h.heap_offset) sizes (kmalloc_all h sizes).0
unfolding kmalloc_all
kmalloc_all-Stacked h [] a fits = tt
kmalloc_all-Stacked h (size ∷ sizes) a fits = (
  omega arith,
  omega arith,
  Stacked-mono sizes (kmalloc_all (kmalloc h size).1 sizes).0 (omega arith)
      (kmalloc_all-Stacked (kmalloc h size).1 sizes (omega arith) (omega arith)),
)

-- A request of 4 GiB less 15 bytes or more moves the heap by less than was asked for: whatever is
-- asked for next, its region starts inside the first.
pub kmalloc_truncates :
    (h : Heap) (size next : ℕ)
    → 2 ^ 32 ≤ size + 15
    → size < 2 ^ 33
    → h.heap_offset + size < 2 ^ 63
    → let (ptr, h') = kmalloc h size in
      let (ptr', h'') = kmalloc h' next in (ptr ≤ ptr') × (ptr' < ptr + size)
unfolding kmalloc
kmalloc_truncates h size next big small fits = (omega arith, omega arith)
