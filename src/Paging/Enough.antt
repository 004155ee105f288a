-- ===== src/Paging/Enough.antt =====
-- The tables of kernel/arch/x86_64/paging.c are enough for the memory that `paging_init` maps.
use flare_os.Prelude.{
  ℕ, zero, suc, ◌+◌, ◌*◌, ◌/◌, ◌%◌, ◌^◌, ◌≤◌, ◌<◌, ◌≡◌, refl, ap, ◌∙◌, inl, inr, false, ◌&&◌, some,
  arith, ltb, leb, ◌==◌, Bool-cases,
}
use flare_os.Paging.{
  Paging, BootInfo, put, alloc_table, paging_walk_create, table_entry, table_from_entry,
  large_entry, count_page, pd_index, pdpt_index, pml4_index, paging_map_page_2mb, map_pages,
  page_base, rounds_for, paging_map_identity_range, identity_size, paging_init,
}
use flare_os.Paging.Creating.{created}
use flare_os.Paging.Starting.{first_table, first_range, identity_size-bounds, MapsMemory}

-- The tables of the first GiB: the top one, the one below, and one for each of `k` GiB.
record Filled (page k : ℕ) (s : Paging) : Type 0 where
  top : s.pml4 ≡ 0
  used : s.page_pool_used ≡ 2 + k
  first : s.page_pool 0 0 ≡ table_entry page 1
  below : (j : ℕ) → j < k → s.page_pool 1 j ≡ table_entry page (2 + j)
  rest : (j : ℕ) → k ≤ j → s.page_pool 1 j ≡ 0

-- A walk along an entry that is there, and one that takes a new table.
walk_there :
    (page : ℕ) (s : Paging) (t i k : ℕ)
    → s.page_pool t i ≡ table_entry page k
    → paging_walk_create page s t i ≡ some (k, s)
unfolding paging_walk_create
walk_there page s t i k e =
    let odd : (table_entry page k % 2 == 0) ≡ false = ground arith in
    let child : table_from_entry page (table_entry page k) ≡ k = omega arith in
    rw (e, odd, child) refl

walk_new :
    (page : ℕ) (s : Paging) (t i : ℕ)
    → s.page_pool t i ≡ 0
    → s.page_pool_used < 256
    → paging_walk_create page s t i ≡ some (s.page_pool_used, created page s t i)
unfolding paging_walk_create alloc_table put
walk_new page s t i e room =
    let space : leb 256 s.page_pool_used ≡ false = ground arith in rw (e, space) refl

mapped : Paging → ℕ → ℕ → ℕ → ℕ → Paging
mapped s m virt phys flags = count_page (put s m (pd_index virt) (large_entry phys flags))

put-Filled :
    (page k j : ℕ) (s : Paging) (virt phys flags : ℕ)
    → Filled page k s
    → Filled page k (mapped s (2 + j) virt phys flags)
unfolding mapped count_page put
put-Filled page k j s virt phys flags f = record {
  top = f.top;
  used = f.used;
  first = let e : (0 == 2 + j) ≡ false = ground arith in rw e f.first;
  below = λ i h. let e : (1 == 2 + j) ≡ false = ground arith in rw e (f.below i h);
  rest = λ i h. let e : (1 == 2 + j) ≡ false = ground arith in rw e (f.rest i h);
}

created-Filled :
    (page k : ℕ) (s : Paging) → Filled page k s → Filled page (k + 1) (created page s 1 k)
created-Filled page k s f =
    let old : (1 == s.page_pool_used) ≡ false = ground (arith, f.used) in
    let below_next : (i : ℕ)
        → i < k + 1
        → (created page s 1 k).page_pool 1 i ≡ table_entry page (2 + i) =
      λ i h. elim (Bool-cases (i == k)) [
        | inl last ↦ rw last (ground (arith, last, f.used))
        | inr other ↦ rw (other, old) (f.below i (ground (arith, other, h)))
      ] in
    let rest_next : (i : ℕ) → k + 1 ≤ i → (created page s 1 k).page_pool 1 i ≡ 0 = λ i h.
      (let other : (i == k) ≡ false = ground (arith, h) in
        rw (other, old) (f.rest i (omega (arith, h)))) in
    record {
      top = f.top;
      used = omega (arith, f.used);
      first = let e : (0 == s.page_pool_used) ≡ false = ground (arith, f.used) in rw e f.first;
      below = λ i h. below_next i h;
      rest = λ i h. rest_next i h;
    }

-- One page of 2 MiB, in the GiB behind the ones that have tables at the most.
page-fits :
    (page k : ℕ) (s : Paging) (virt phys flags : ℕ)
    → Filled page k s
    → 1 ≤ k
    → k ≤ 16
    → virt < 2 ^ 34
    → virt / 2 ^ 30 ≤ k
    → (s' : Paging) × (k' : ℕ) × (paging_map_page_2mb page s virt phys flags ≡ some s')
      × Filled page k' s'
      × (k ≤ k')
      × (k' ≤ 16)
      × (virt / 2 ^ 30 < k')
unfolding paging_map_page_2mb mapped
page-fits page k s virt phys flags f some_ most low near =
    let j = pdpt_index virt in
    let top_index : pml4_index virt ≡ 0 = omega arith in
    let same : j ≡ virt / 2 ^ 30 = omega arith in
    let w1 = walk_there page s s.pml4 (pml4_index virt) 1 (
      ap (λ (t : ℕ). s.page_pool t (pml4_index virt)) f.top
      ∙ ap (λ (i : ℕ). s.page_pool 0 i) top_index
      ∙ f.first) in
    elim (Bool-cases (ltb j k)) [
      | inl there ↦
          let w2 = walk_there page s 1 j (2 + j) (f.below j (ground (arith, there))) in
          (
            mapped s (2 + j) virt phys flags,
            k,
            rw (w1, w2) refl,
            put-Filled page k j s virt phys flags f,
            omega arith,
            most,
            ground (arith, there, same),
          )
      | inr new ↦
          let edge : j ≡ k = ground (arith, new, same, near) in
          let w2 = walk_new page s 1 k (f.rest k (omega arith)) (omega (arith, f.used, most)) in
          let s1 = created page s 1 k in
          let w2' : paging_walk_create page s 1 j ≡ some (2 + k, s1) =
            ap (λ (i : ℕ). paging_walk_create page s 1 i) edge
            ∙ w2
            ∙ ap (λ (m : ℕ). some (m, s1)) f.used in
          (
            mapped s1 (2 + k) virt phys flags,
            k + 1,
            rw (w1, w2') refl,
            put-Filled page (k + 1) k s1 virt phys flags (created-Filled page k s f),
            omega arith,
            omega (arith, edge, same, low),
            omega (arith, edge, same),
          )
    ]

-- The loop over such pages.
pages-fit :
    (page k : ℕ) (s : Paging) (virt phys flags rounds : ℕ)
    → Filled page k s
    → 1 ≤ k
    → k ≤ 16
    → virt + rounds * 2 ^ 21 ≤ 2 ^ 34
    → virt / 2 ^ 30 ≤ k
    → (s' : Paging) × (map_pages page s virt phys flags rounds ≡ some s')
unfolding map_pages
pages-fit page k s virt phys flags zero f some_ most fits near = (s, refl)
pages-fit page k s virt phys flags (suc rounds) f some_ most fits near =
    let (s1, k1, e, f1, more, most1, past) =
      page-fits page k s virt phys flags f some_ most (omega (arith, fits)) near in
    let (s2, rest) =
      pages-fit page k1 s1 (virt + 2 ^ 21) ((phys + 2 ^ 21) % 2 ^ 64) flags rounds f1
        (omega (arith, some_, more)) most1 (omega (arith, fits)) (omega (arith, past)) in
    (s2, rw e rest)

-- The first page of all takes two tables.
first_page :
    (page : ℕ) (s : Paging) (phys flags : ℕ)
    → (s' : Paging) × (paging_map_page_2mb page (first_table s) 0 phys flags ≡ some s')
      × Filled page 1 s'
unfolding paging_map_page_2mb mapped
first_page page s phys flags =
    let s0 = first_table s in
    let s1 = created page s0 0 0 in
    let s2 = created page s1 1 0 in
    let filled : Filled page 1 s2 = record {
      top = refl;
      used = refl;
      first = refl;
      below = λ j h. ground (arith, h);
      rest = λ j h. ground (arith, h);
    } in
    let w1 = walk_new page s0 0 0 refl (omega arith) in
    let w2 = walk_new page s1 1 0 refl (omega arith) in
    (mapped s2 2 0 phys flags, rw (w1, w2) refl, put-Filled page 1 0 s2 0 phys flags filled)

first_pages :
    (page : ℕ) (s : Paging) (rounds : ℕ)
    → rounds * 2 ^ 21 ≤ 2 ^ 34
    → (s' : Paging) × (map_pages page (first_table s) 0 0 2 rounds ≡ some s')
unfolding map_pages
first_pages page s zero fits = (first_table s, refl)
first_pages page s (suc rounds) fits =
    let (s1, e, filled) = first_page page s 0 2 in
    let (s2, rest) =
      pages-fit page 1 s1 (2 ^ 21) (2 ^ 21) 2 rounds filled (omega arith) (omega arith)
        (omega (arith, fits)) (omega arith) in
    (s2, rw e rest)

first_range-returns :
    (page : ℕ) (s : Paging) (size : ℕ)
    → size ≤ 2 ^ 34
    → (s' : Paging) × (paging_map_identity_range page (first_table s) 0 size 2 ≡ some s')
unfolding paging_map_identity_range
first_range-returns page s size small =
    first_pages page s (rounds_for 0 size) (omega (arith, small))

-- With any size of the memory, and without a frame buffer behind the memory that is mapped, `paging_init`
-- returns: the 256 tables of the pool are enough, and every address of that memory leads to itself.
pub paging_init-returns :
    (page : ℕ) (s : Paging) (boot : BootInfo)
    → (leb (identity_size boot.total_memory) (page_base boot.framebuffer_addr)
        && ltb 0 (boot.framebuffer_pitch * boot.framebuffer_height))
      ≡ false
    → (s' : Paging) × (paging_init page s boot ≡ some s') × MapsMemory page boot s'
unfolding paging_init alloc_table
paging_init-returns page s boot before =
    let (s1, e) =
      first_range-returns page s (identity_size boot.total_memory)
        (identity_size-bounds boot.total_memory) in
    elim (first_range page s boot) [
      | inl full ↦ absurd (cc (e, full))
      | inr (s2, path, e2, tree, memory, _) ↦ (s2, rw (e2, before) refl, memory)
    ]
