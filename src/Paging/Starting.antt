-- ===== src/Paging/Starting.antt =====
-- The page tables behind `paging_init` of kernel/arch/x86_64/paging.c.
use flare_os.Prelude.{
  ℕ, ◌+◌, ◌-◌, ◌*◌, ◌/◌, ◌^◌, ◌≤◌, ◌<◌, ◌≡◌, ◌⊎◌, refl, ap, ◌∙◌, inl, inr, true, false, List, [],
  none, some, arith, ◌==◌, if◌then◌else◌,
}
use flare_os.Paging.{
  Paging, BootInfo, page_base, rounds_for, paging_map_identity_range, paging_map_range,
  identity_size,
}
use flare_os.Paging.Walking.{Tree, reach}
use flare_os.Paging.Ranges.{within, MapsRange, map_pages-cases}

-- Over tables that form a tree, up to an end at 2 to the 48 less one page, and for memory that ends two
-- pages before 2 to the 52, the end of what an entry can hold: the mapping of a range ends with a panic
-- for want of tables, or leaves a tree in which the addresses of its pages lead to the memory from the
-- page of `phys` on, in order, and all other addresses below 2 to the 48 lead where they led before.
pub paging_map_range-MapsRange :
    (page : ℕ) (s : Paging) (path : ℕ → List ℕ) (virt phys size flags : ℕ)
    → Tree page s path
    → virt + size + 2 ^ 21 ≤ 2 ^ 48
    → phys + size + 2 ^ 22 ≤ 2 ^ 52
    → (paging_map_range page s virt phys size flags ≡ none)
      ⊎ ((s' : Paging) × (path' : ℕ → List ℕ) × (paging_map_range page s virt phys size flags
            ≡ some s')
          × Tree page s' path'
          × MapsRange page s (page_base virt) (page_base phys) (rounds_for virt size) s')
unfolding paging_map_range
paging_map_range-MapsRange page s path virt phys size flags tree fits below =
    map_pages-cases page s path (page_base virt) (page_base phys) flags (rounds_for virt size) tree
      (omega arith) (omega arith)

-- The address of the first page of 2 MiB at or behind an address.
abbrev pub page_end : ℕ → ℕ
page_end addr = page_base (addr + (2 ^ 21 - 1))

module _ (page : ℕ) (s s' : Paging) (base rounds : ℕ)
    (maps : MapsRange page s base base rounds s') where
  kept_outside :
      (v : ℕ)
      → v < 2 ^ 48
      → within (base / 2 ^ 21) rounds (v / 2 ^ 21) ≡ false
      → reach page s' v ≡ reach page s v
  kept_outside v h outside = rw (maps v h, outside) refl

  identity_new :
      (v : ℕ)
      → v < 2 ^ 48
      → within (base / 2 ^ 21) rounds (v / 2 ^ 21) ≡ true
      → reach page s' v ≡ some v
  identity_new v h inside = rw (maps v h, inside) (ap (λ (a : ℕ). some a) (ground (arith, inside)))

module _ (base size v : ℕ) (fits : base + size + 2 ^ 21 ≤ 2 ^ 48) where
  range_within :
      page_base base ≤ v
      → v < page_end (base + size)
      → within (page_base base / 2 ^ 21) (rounds_for base size) (v / 2 ^ 21) ≡ true
  range_within low high = ground arith

  range_outside :
      (v < page_base base) ⊎ (page_end (base + size) ≤ v)
      → within (page_base base / 2 ^ 21) (rounds_for base size) (v / 2 ^ 21) ≡ false
  range_outside (inl low) = ground arith
  range_outside (inr high) = ground arith

-- The tables that the mapping starts with: an empty one.
abbrev pub first_table : Paging → Paging
first_table s = record {
  page_pool = λ t i. if t == 0 then 0 else s.page_pool t i;
  page_pool_used = 1;
  pml4 = 0;
  pages_mapped = 0;
}

pub first-Tree : (page : ℕ) (s : Paging) → Tree page (first_table s) (λ _. [])
first-Tree page s = record {
  top = refl;
  top_used = omega arith;
  child_used = λ t i h u p. absurd (ground (arith, h, p));
  child_path = λ t i h u p. absurd (ground (arith, h, p));
}

-- They lead nowhere.
first-none : (page : ℕ) (s : Paging) (v : ℕ) → reach page (first_table s) v ≡ none
first-none page s v = refl

pub identity_size-bounds : (total : ℕ) → identity_size total ≤ 2 ^ 34
identity_size-bounds total = ground arith

-- The size that the code gives the frame buffer, from the beginning of its first page on.
abbrev pub frame_end : BootInfo → ℕ
frame_end boot =
    page_end (page_base boot.framebuffer_addr + boot.framebuffer_pitch * boot.framebuffer_height)

-- For a frame buffer that begins in a page behind the memory: its pages lead to themselves.
abbrev pub MapsFrame : ℕ → BootInfo → Paging → Type 0
MapsFrame page boot s =
    (v : ℕ)
    → identity_size boot.total_memory ≤ page_base boot.framebuffer_addr
    → page_base boot.framebuffer_addr ≤ v
    → v < frame_end boot
    → reach page s v ≡ some v

-- Nothing else is mapped.
abbrev pub MapsNoMore : ℕ → BootInfo → Paging → Type 0
MapsNoMore page boot s =
    (v : ℕ)
    → v < 2 ^ 48
    → page_end (identity_size boot.total_memory) ≤ v
    → (v < page_base boot.framebuffer_addr) ⊎ (frame_end boot ≤ v)
    → reach page s v ≡ none

abbrev pub MapsMemory : ℕ → BootInfo → Paging → Type 0
MapsMemory page boot s = (v : ℕ) → v < identity_size boot.total_memory → reach page s v ≡ some v

-- Every address behind the pages of the memory leads nowhere.
abbrev pub EndsThere : ℕ → BootInfo → Paging → Type 0
EndsThere page boot s =
    (v : ℕ) → v < 2 ^ 48 → page_end (identity_size boot.total_memory) ≤ v → reach page s v ≡ none

pub first_range :
    (page : ℕ) (s : Paging) (boot : BootInfo)
    → (paging_map_identity_range page (first_table s) 0 (identity_size boot.total_memory) 2 ≡ none)
      ⊎ ((s' : Paging) × (path' : ℕ → List ℕ) × (paging_map_identity_range page
              (first_table s)
              0
              (identity_size boot.total_memory)
              2
            ≡ some s')
          × Tree page s' path'
          × MapsMemory page boot s'
          × EndsThere page boot s')
unfolding paging_map_identity_range
first_range page s boot =
    let size = identity_size boot.total_memory in
    let small : size ≤ 2 ^ 34 = identity_size-bounds boot.total_memory in
    let fits : 0 + size + 2 ^ 21 ≤ 2 ^ 48 = omega (arith, small) in
    elim (map_pages-cases page (first_table s) (λ _. []) 0 0 2 (rounds_for 0 size)
      (first-Tree page s) (omega (arith, small)) (omega (arith, small))) [
        | inl full ↦ inl full
        | inr (s', path', e, tree, maps) ↦ inr (
          s',
          path',
          e,
          tree,
          λ v h.
              identity_new page (first_table s) s' 0 (rounds_for 0 size) maps v
                (omega (arith, h, small))
                (range_within 0 size v fits (omega arith) (omega (arith, h))),
          λ v h behind.
              kept_outside page (first_table s) s' 0 (rounds_for 0 size) maps v h
                (range_outside 0 size v fits (inr (omega (arith, behind))))
              ∙ first-none page s v,
        )
      ]
