-- ===== src/Paging/Mapping.antt =====
-- What a page of 2 MiB that kernel/arch/x86_64/paging.c maps does to the addresses.
use flare_os.Prelude.{
  ℕ, ◌+◌, ◌*◌, ◌/◌, ◌%◌, ◌^◌, ◌≤◌, ◌<◌, ◌≡◌, ◌⊎◌, refl, sym, ap, ◌∙◌, inl, inr, true, false, ◌&&◌,
  List, [], ◌∷◌, none, some, arith, ◌==◌, if◌then◌else◌, length, get_or, Bool-cases,
}
use flare_os.Paging.{
  Paging, put, table_from_entry, pml4_index, pdpt_index, pd_index, large_entry, count_page,
  paging_map_page_2mb,
}
use flare_os.Paging.Walking.{Tree, large_page, reach}
use flare_os.Paging.Creating.{}
use flare_os.Paging.Steps.{Walked, walk-cases}
use flare_os.Paging.Entries.{read_upper, put-top, put-Tree, put-reach}

-- What is found where the way through the tables ends at an entry.
reach-through :
    (page : ℕ) (s : Paging) (t a b k m virt : ℕ)
    → s.pml4 ≡ t
    → pml4_index virt ≡ a
    → pdpt_index virt ≡ b
    → s.page_pool t a % 2 ≡ 1
    → table_from_entry page (s.page_pool t a) ≡ k
    → s.page_pool k b % 2 ≡ 1
    → table_from_entry page (s.page_pool k b) ≡ m
    → reach page s virt ≡ large_page (s.page_pool m (pd_index virt)) virt
reach-through page s t a b k m virt top ea eb p leads q leads' =
    let p' : (s.page_pool t a % 2 == 0) ≡ false = ground (arith, p) in
    let q' : (s.page_pool k b % 2 == 0) ≡ false = ground (arith, q) in
    rw (top, ea, p', leads, eb, q', leads') refl

large_page-large_entry :
    (phys flags virt : ℕ)
    → large_page (large_entry phys flags) virt ≡ some (phys / 2 ^ 21 * 2 ^ 21 + virt % 2 ^ 21)
large_page-large_entry phys flags virt = ground arith

module _ (virt : ℕ) where
  -- Addresses with the same three indices are in the same page.
  same_page :
      (other : ℕ)
      → virt < 2 ^ 48
      → other < 2 ^ 48
      → pml4_index other ≡ pml4_index virt
      → pdpt_index other ≡ pdpt_index virt
      → pd_index other ≡ pd_index virt
      → other / 2 ^ 21 ≡ virt / 2 ^ 21
  same_page other h h' a b c = omega arith

  other_way :
      (path : ℕ → List ℕ) (m other : ℕ)
      → virt < 2 ^ 48
      → other < 2 ^ 48
      → (other / 2 ^ 21 == virt / 2 ^ 21) ≡ false
      → path m ≡ pdpt_index virt ∷ pml4_index virt ∷ []
      → (k : ℕ) → path k ≡ pdpt_index other ∷ pml4_index other ∷ []
      → (k == m && pd_index other == pd_index virt) ≡ false
  other_way path m other h h' differ at k at' =
      elim (Bool-cases (k == m && pd_index other == pd_index virt)) [
        | inr apart ↦ apart
        | inl equal ↦
            let e : k ≡ m = ground (arith, equal) in
            let c : pd_index other ≡ pd_index virt = ground (arith, equal) in
            let both : pdpt_index other ∷ pml4_index other ∷ []
                ≡ pdpt_index virt ∷ pml4_index virt ∷ [] =
              sym at' ∙ ap (λ (x : ℕ). path x) e ∙ at in
            let b : pdpt_index other ≡ pdpt_index virt = ap (λ (p : List ℕ). get_or p 0 0) both in
            let a : pml4_index other ≡ pml4_index virt = ap (λ (p : List ℕ). get_or p 1 0) both in
            let same = same_page other h h' a b c in absurd (ground (arith, differ, same))
      ]

module _ (page : ℕ) (s : Paging) (path : ℕ → List ℕ) (virt phys flags : ℕ)
    (tree : Tree page s path) where
  -- The addresses of the page lead to the memory at `phys`, and all others where they led before.
  abbrev pub Maps : Paging → Type 0
  Maps s' =
      (other : ℕ)
      → other < 2 ^ 48
      → reach page s' other ≡ (
          if other / 2 ^ 21 == virt / 2 ^ 21
          then some (phys / 2 ^ 21 * 2 ^ 21 + other % 2 ^ 21)
          else reach page s other)

  abbrev mapped : Paging → ℕ → Paging
  mapped s2 m = count_page (put s2 m (pd_index virt) (large_entry phys flags))

  counted-Tree :
      (s2 : Paging) (path2 : ℕ → List ℕ) → Tree page s2 path2 → Tree page (count_page s2) path2
  unfolding count_page
  counted-Tree s2 path2 t = record {
    top = t.top;
    top_used = t.top_used;
    child_used = t.child_used;
    child_path = t.child_path;
  }

  counted-reach : (s2 : Paging) (v : ℕ) → reach page (count_page s2) v ≡ reach page s2 v
  unfolding count_page
  counted-reach s2 v = refl

  read_here :
      (s2 : Paging) (m v : ℕ)
      → v / 2 ^ 21 ≡ virt / 2 ^ 21
      → (put s2 m (pd_index virt) (large_entry phys flags)).page_pool m (pd_index v)
        ≡ large_entry phys flags
  unfolding put
  read_here s2 m v e =
      let here : (m == m && pd_index v == pd_index virt) ≡ true = ground (arith, e) in rw here refl

  module _ (k m : ℕ) (s1 s2 : Paging) (path1 path2 : ℕ → List ℕ)
      (w1 : Walked page s path s.pml4 (pml4_index virt) k s1 path1)
      (w2 : Walked page s1 path1 k (pdpt_index virt) m s2 path2) where
    end_path : path2 m ≡ pdpt_index virt ∷ pml4_index virt ∷ []
    end_path =
        w2.at_path
        ∙ ap (λ (p : List ℕ). pdpt_index virt ∷ p)
            (w1.at_path ∙ ap (λ (p : List ℕ). pml4_index virt ∷ p) tree.top)

    end_depth : length (path2 m) ≡ 2
    end_depth = ap (λ (p : List ℕ). length p) end_path

    top_kept : s2.page_pool s.pml4 (pml4_index virt) ≡ s1.page_pool s.pml4 (pml4_index virt)
    top_kept = w2.keeps s.pml4 (pml4_index virt) (omega (arith, tree.top_used, w1.more)) w1.present

    same_top : s2.pml4 ≡ s.pml4
    same_top = w2.same_top ∙ w1.same_top

    top_path : path2 s.pml4 ≡ []
    top_path = ap (λ (x : ℕ). path2 x) (sym same_top) ∙ w2.tree.top

    top_present : s2.page_pool s.pml4 (pml4_index virt) % 2 ≡ 1
    top_present = omega (arith, top_kept, w1.present)

    top_leads : table_from_entry page (s2.page_pool s.pml4 (pml4_index virt)) ≡ k
    top_leads = ap (λ (x : ℕ). table_from_entry page x) top_kept ∙ w1.leads

    top_upper : length (path2 s.pml4) ≤ 1
    top_upper = omega (arith, ap (λ (p : List ℕ). length p) top_path)

    middle_upper : length (path2 k) ≤ 1
    middle_upper =
        let inside : s.pml4 < s2.page_pool_used = omega (arith, tree.top_used, w1.more, w2.more) in
        let way : path2 k ≡ pml4_index virt ∷ path2 s.pml4 =
          ap (λ (x : ℕ). path2 x) (sym top_leads)
          ∙ w2.tree.child_path s.pml4 (pml4_index virt) inside top_upper top_present in
        omega (arith, ap (λ (p : List ℕ). length p) way, ap (λ (p : List ℕ). length p) top_path)

    here :
        (v : ℕ)
        → v / 2 ^ 21 ≡ virt / 2 ^ 21
        → reach page (put s2 m (pd_index virt) (large_entry phys flags)) v
          ≡ some (phys / 2 ^ 21 * 2 ^ 21 + v % 2 ^ 21)
    here v e =
        let c = pd_index virt in
        let entry = large_entry phys flags in
        let r =
          read_upper page s2 path2 m c entry w2.tree end_depth s.pml4 (pml4_index virt) top_upper in
        let r' =
          read_upper page s2 path2 m c entry w2.tree end_depth k (pdpt_index virt) middle_upper in
        reach-through page (put s2 m c entry) s.pml4 (pml4_index virt) (pdpt_index virt) k m v
          (put-top page s2 path2 m c entry w2.tree end_depth ∙ same_top) (omega (arith, e))
          (omega (arith, e)) (omega (arith, r, top_present))
          (ap (λ (x : ℕ). table_from_entry page x) r ∙ top_leads) (omega (arith, r', w2.present))
          (ap (λ (x : ℕ). table_from_entry page x) r' ∙ w2.leads)
        ∙ ap (λ (x : ℕ). large_page x v) (read_here s2 m v e)
        ∙ large_page-large_entry phys flags v

    mapped-Maps : virt < 2 ^ 48 → Maps (mapped s2 m)
    mapped-Maps low v h = elim (Bool-cases (v / 2 ^ 21 == virt / 2 ^ 21)) [
      | inl same ↦ rw same (counted-reach _ v ∙ here v (ground (arith, same)))
      | inr other ↦ rw other (
          counted-reach _ v
          ∙ put-reach page s2 path2 m (pd_index virt) (large_entry phys flags) w2.tree end_depth v
              (other_way virt path2 m v low h other end_path)
          ∙ w2.same v
          ∙ w1.same v)
    ]

  -- Either the tables have run out, or the page is mapped.
  pub map_2mb-cases :
      virt < 2 ^ 48
      → (paging_map_page_2mb page s virt phys flags ≡ none)
        ⊎ ((s' : Paging) × (path' : ℕ → List ℕ) × (paging_map_page_2mb page s virt phys flags
              ≡ some s')
            × Tree page s' path'
            × Maps s')
  unfolding paging_map_page_2mb
  map_2mb-cases low =
      elim (walk-cases page s path s.pml4 (pml4_index virt) tree tree.top_used
        (omega (arith, ap (λ (p : List ℕ). length p) tree.top))) [
          | inl full ↦ inl (rw full refl)
          | inr (k, s1, path1, e1, w1) ↦
              elim (walk-cases page s1 path1 k (pdpt_index virt) w1.tree w1.used (
                omega (
                  arith,
                  ap (λ (p : List ℕ). length p) w1.at_path,
                  ap (λ (p : List ℕ). length p) tree.top,
                ))) [
                  | inl full ↦ inl (rw (e1, full) refl)
                  | inr (m, s2, path2, e2, w2) ↦ inr (
                    mapped s2 m,
                    path2,
                    rw (e1, e2) refl,
                    counted-Tree _ path2 (
                        put-Tree page s2 path2 m (pd_index virt) (large_entry phys flags) w2.tree
                          (end_depth k m s1 s2 path1 path2 w1 w2)),
                    mapped-Maps k m s1 s2 path1 path2 w1 w2 low,
                  )
                ]
        ]
