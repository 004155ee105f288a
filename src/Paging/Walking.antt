-- ===== src/Paging/Walking.antt =====
-- The tables of kernel/arch/x86_64/paging.c form a tree, and what the processor finds in it.
use flare_os.Prelude.{
  ℕ, ◌+◌, ◌*◌, ◌/◌, ◌%◌, ◌^◌, ◌≤◌, ◌<◌, ◌≡◌, ◌||◌, List, [], ◌∷◌, Option, none, some, ◌==◌,
  if◌then◌else◌, length,
}
use flare_os.Paging.{Paging, table_from_entry, pml4_index, pdpt_index, pd_index}

-- What the processor finds for an address: the address in a page of 2 MiB. `none` where an entry on
-- the way is not present, or where the last one does not stand for such a page.
abbrev pub large_page : ℕ → ℕ → Option ℕ
large_page entry virt =
    if entry % 2 == 0 || entry / 128 % 2 == 0
    then none
    else some (entry / 2 ^ 21 * 2 ^ 21 + virt % 2 ^ 21)

abbrev pub in_pd : Paging → ℕ → ℕ → Option ℕ
in_pd s pd virt = large_page (s.page_pool pd (pd_index virt)) virt

abbrev pub in_pdpt : ℕ → Paging → ℕ → ℕ → Option ℕ
in_pdpt page s pdpt virt =
    let entry = s.page_pool pdpt (pdpt_index virt) in
    if entry % 2 == 0 then none else in_pd s (table_from_entry page entry) virt

abbrev pub reach : ℕ → Paging → ℕ → Option ℕ
reach page s virt =
    let entry = s.page_pool s.pml4 (pml4_index virt) in
    if entry % 2 == 0 then none else in_pdpt page s (table_from_entry page entry) virt

-- `path` gives the indices on the way from the top table to a table, the last first. A present entry
-- of the upper two levels leads to a table in use, one step further on.
pub record Tree (page : ℕ) (s : Paging) (path : ℕ → List ℕ) : Type 0 where
  pub top : path s.pml4 ≡ []
  pub top_used : s.pml4 < s.page_pool_used
  pub child_used :
      (t i : ℕ)
      → t < s.page_pool_used
      → length (path t) ≤ 1
      → s.page_pool t i % 2 ≡ 1
      → table_from_entry page (s.page_pool t i) < s.page_pool_used
  pub child_path :
      (t i : ℕ)
      → t < s.page_pool_used
      → length (path t) ≤ 1
      → s.page_pool t i % 2 ≡ 1
      → path (table_from_entry page (s.page_pool t i)) ≡ i ∷ path t
