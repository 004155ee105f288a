-- ===== src/Memory.antt =====
-- kernel/core/memory.c: the kernel heap, a pointer that `kmalloc` moves up and `heap_reset` moves
-- back. The heap is its one variable, `heap_offset`; `usize` is 64 bits wide.
pub mod Regions
mod Tests
use flare_os.Prelude.{ℕ, ◌+◌, ◌*◌, ◌/◌, ◌%◌, ◌^◌, List, [], ◌∷◌}

pub record Heap : Type 0 where
  pub heap_offset : ℕ

abbrev pub heap_base : ℕ
heap_base = 0x180000

-- `(size + 15u) & ~15u`. The mask is a 32-bit constant, so it also clears the upper 32 bits.
unfoldable pub round_up : ℕ → ℕ
round_up size = (size + 15) % 2 ^ 64 % 2 ^ 32 / 16 * 16

unfoldable pub memory_init : Heap
memory_init = record { heap_offset = 0 }

-- The pointer and the heap after the call. There is no failure: the pointer is never NULL.
unfoldable pub kmalloc : Heap → ℕ → ℕ × Heap
unfolding round_up
kmalloc h size = (
  (heap_base + h.heap_offset) % 2 ^ 64,
  record { heap_offset = (h.heap_offset + round_up size) % 2 ^ 64 },
)

pub heap_mark : Heap → ℕ
heap_mark h = h.heap_offset

pub heap_reset : Heap → ℕ → Heap
heap_reset h mark = record { heap_offset = mark }

pub heap_bytes_used : Heap → ℕ
heap_bytes_used h = h.heap_offset

-- A run of requests, and the addresses that they get.
pub kmalloc_all : Heap → List ℕ → List ℕ × Heap
unfolding kmalloc
kmalloc_all h [] = ([], h)
kmalloc_all h (size ∷ sizes) =
    let (ptr, h') = kmalloc h size in let (ptrs, h'') = kmalloc_all h' sizes in (ptr ∷ ptrs, h'')
