-- ===== src/Paging.antt =====
-- kernel/arch/x86_64/paging.c: the page tables. They come from an array of 256 tables, whose memory is
-- a function of a table's number and an entry's; `page` is the number of the page that the array
-- starts at, so that table `k` has the address `(page + k) * 4096`. `none` is a kernel panic.
pub mod Walking
pub mod Creating
pub mod Steps
pub mod Entries
pub mod Mapping
pub mod Ranges
pub mod Starting
pub mod Enough
mod Tests
use flare_os.Prelude.{
  ℕ, zero, suc, ◌+◌, ◌-◌, ◌*◌, ◌/◌, ◌%◌, ◌^◌, Bool, true, false, ◌&&◌, ◌||◌, Option, none, some,
  ltb, leb, ◌==◌, if◌then◌else◌, ◌>>=◌,
}

pub record Paging : Type 0 where
  pub page_pool : ℕ → ℕ → ℕ
  pub page_pool_used : ℕ
  pub pml4 : ℕ
  pub pages_mapped : ℕ

abbrev pub page_size_2mb : ℕ
page_size_2mb = 2 ^ 21

abbrev pub max_identity : ℕ
max_identity = 2 ^ 34

-- The boot loader's facts that `paging_init` reads.
pub record BootInfo : Type 0 where
  pub total_memory : ℕ
  pub framebuffer_addr : ℕ
  pub framebuffer_pitch : ℕ
  pub framebuffer_height : ℕ

-- A store to an entry of a table.
unfoldable pub put : Paging → ℕ → ℕ → ℕ → Paging
put s table index value = record s {
  page_pool = λ t i. if t == table && i == index then value else s.page_pool t i;
}

unfoldable pub alloc_table : Paging → Option (ℕ × Paging)
alloc_table s =
    let k = s.page_pool_used in
    if leb 256 k
    then none
    else some (
      k,
      record s { page_pool = λ t i. if t == k then 0 else s.page_pool t i; page_pool_used = k + 1 },
    )

-- The number of the table at the address in an entry.
abbrev pub table_from_entry : ℕ → ℕ → ℕ
table_from_entry page entry = entry / 4096 - page

-- An entry that points to a table: its address, present and writable.
abbrev pub table_entry : ℕ → ℕ → ℕ
table_entry page k = (page + k) * 4096 + 3

unfoldable pub paging_walk_create : ℕ → Paging → ℕ → ℕ → Option (ℕ × Paging)
paging_walk_create page s table index =
    if s.page_pool table index % 2 == 0
    then (alloc_table s >>= λ next. some (next.0, put next.1 table index (table_entry page next.0)))
    else some (table_from_entry page (s.page_pool table index), s)

abbrev pub pml4_index : ℕ → ℕ
pml4_index virt = virt / 2 ^ 39 % 512

abbrev pub pdpt_index : ℕ → ℕ
pdpt_index virt = virt / 2 ^ 30 % 512

abbrev pub pd_index : ℕ → ℕ
pd_index virt = virt / 2 ^ 21 % 512

abbrev pub pt_index : ℕ → ℕ
pt_index virt = virt / 2 ^ 12 % 512

-- `n | PAGE_PRESENT`, and `n | PAGE_PS`.
abbrev pub or_present : ℕ → ℕ
or_present n = n / 2 * 2 + 1

abbrev pub or_ps : ℕ → ℕ
or_ps n = if n / 128 % 2 == 0 then n + 128 else n

abbrev pub page_entry : ℕ → ℕ → ℕ
page_entry phys flags = phys / 4096 * 4096 + or_present (flags % 4096)

abbrev pub large_entry : ℕ → ℕ → ℕ
large_entry phys flags = phys / 2 ^ 21 * 2 ^ 21 + or_ps (or_present (flags % 512))

unfoldable pub count_page : Paging → Paging
count_page s = record s { pages_mapped = (s.pages_mapped + 1) % 2 ^ 64 }

unfoldable pub paging_map_page : ℕ → Paging → ℕ → ℕ → ℕ → Option Paging
paging_map_page page s virt phys flags =
    paging_walk_create page s s.pml4 (pml4_index virt) >>= λ pdpt.
    paging_walk_create page pdpt.1 pdpt.0 (pdpt_index virt) >>= λ pd.
    paging_walk_create page pd.1 pd.0 (pd_index virt) >>= λ pt.
    some (count_page (put pt.1 pt.0 (pt_index virt) (page_entry phys flags)))

unfoldable pub paging_map_page_2mb : ℕ → Paging → ℕ → ℕ → ℕ → Option Paging
paging_map_page_2mb page s virt phys flags =
    paging_walk_create page s s.pml4 (pml4_index virt) >>= λ pdpt.
    paging_walk_create page pdpt.1 pdpt.0 (pdpt_index virt) >>= λ pd.
    some (count_page (put pd.1 pd.0 (pd_index virt) (large_entry phys flags)))

-- A loop over `rounds` pages of 2 MiB. The end of the range is a u64, so that `v` cannot wrap around in
-- the rounds that there are, but `p` can.
unfoldable pub map_pages : ℕ → Paging → ℕ → ℕ → ℕ → ℕ → Option Paging
map_pages page s virt phys flags zero = some s
map_pages page s virt phys flags (suc rounds) = paging_map_page_2mb page s virt phys flags >>= λ s'.
    map_pages page s' (virt + page_size_2mb) ((phys + page_size_2mb) % 2 ^ 64) flags rounds

-- The pages of 2 MiB from the one of `virt` to the end of a region that wraps around as a u64.
abbrev pub rounds_for : ℕ → ℕ → ℕ
rounds_for virt size =
    (virt + size + (page_size_2mb - 1)) % 2 ^ 64 / page_size_2mb - virt / page_size_2mb

abbrev pub page_base : ℕ → ℕ
page_base addr = addr / page_size_2mb * page_size_2mb

unfoldable pub paging_map_identity_range : ℕ → Paging → ℕ → ℕ → ℕ → Option Paging
paging_map_identity_range page s base size flags =
    map_pages page s (page_base base) (page_base base) flags (rounds_for base size)

unfoldable pub paging_map_range : ℕ → Paging → ℕ → ℕ → ℕ → ℕ → Option Paging
paging_map_range page s virt phys size flags =
    map_pages page s (page_base virt) (page_base phys) flags (rounds_for virt size)

unfoldable pub paging_map_page_4k : ℕ → Paging → ℕ → ℕ → ℕ → Option Paging
paging_map_page_4k page s virt phys flags = paging_map_page page s virt phys flags

-- The copy of the top table holds the present entries; the others stay 0.
unfoldable pub paging_alloc_pml4_copy : ℕ → Paging → Option (ℕ × Paging)
paging_alloc_pml4_copy page s = alloc_table s >>= λ next.
    (let entry = s.page_pool s.pml4 in
      let copy = λ (i : ℕ). if ltb i 512 && (entry i % 2 == 1) then entry i else 0 in
      some (
        (page + next.0) * 4096,
        record (next.1) { page_pool = λ t i. if t == next.0 then copy i else next.1.page_pool t i },
      ))

abbrev pub identity_size : ℕ → ℕ
identity_size total =
    if ltb 0 total && leb total max_identity
    then total
    else if ltb max_identity total
    then max_identity
    else 2 ^ 26

-- The second range is mapped for a frame buffer behind the first. PAGE_WRITABLE is 2. The result is
-- the state behind the load of CR3 with `pml4`.
unfoldable pub paging_init : ℕ → Paging → BootInfo → Option Paging
paging_init page s boot =
    let base = page_base boot.framebuffer_addr in
    let size = boot.framebuffer_pitch * boot.framebuffer_height in
    let identity = identity_size boot.total_memory in
    alloc_table (record s { page_pool_used = 0; pages_mapped = 0 }) >>= λ top.
    paging_map_identity_range page (record (top.1) { pml4 = top.0 }) 0 identity 2 >>= λ s1.
    if leb identity base && ltb 0 size
    then paging_map_identity_range page s1 base size 2
    else some s1

unfoldable pub paging_mapped_bytes : Paging → ℕ
paging_mapped_bytes s = s.pages_mapped * page_size_2mb % 2 ^ 64

unfoldable pub paging_table_count : Paging → ℕ
paging_table_count s = s.page_pool_used
