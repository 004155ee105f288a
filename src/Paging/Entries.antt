-- ===== src/Paging/Entries.antt =====
-- A store to an entry of a last table of kernel/arch/x86_64/paging.c.
use flare_os.Prelude.{
  ℕ, ◌%◌, ◌≤◌, ◌<◌, ◌≡◌, refl, sym, ap, ◌∙◌, subst, inl, inr, false, ◌&&◌, List, [], ◌∷◌, arith,
  ◌==◌, length, Bool-cases,
}
use flare_os.Paging.{Paging, put, table_from_entry, pml4_index, pdpt_index, pd_index}
use flare_os.Paging.Walking.{Tree, in_pd, in_pdpt, reach}
use flare_os.Paging.Creating.{}

module _ (page : ℕ) (s : Paging) (path : ℕ → List ℕ) (m c value : ℕ) (tree : Tree page s path)
    (deep : length (path m) ≡ 2) where
  not_at : (t : ℕ) → length (path t) ≤ 1 → (t == m) ≡ false
  not_at t upper = elim (Bool-cases (t == m)) [
    | inl same ↦
        let e : t ≡ m = ground (arith, same) in
        absurd (omega (arith, deep, upper, ap (λ (k : ℕ). length (path k)) e))
    | inr other ↦ other
  ]

  pub read_upper :
      (t i : ℕ) → length (path t) ≤ 1 → (put s m c value).page_pool t i ≡ s.page_pool t i
  unfolding put
  read_upper t i upper = rw (not_at t upper) refl

  pub put-Tree : Tree page (put s m c value) path
  unfolding put
  put-Tree = record {
    top = tree.top;
    top_used = tree.top_used;
    child_used = λ t i h u p.
        let r = read_upper t i u in
        subst (λ (x : ℕ). table_from_entry page x < s.page_pool_used) (sym r)
          (tree.child_used t i h u (omega (arith, p, r)));
    child_path = λ t i h u p.
        let r = read_upper t i u in
        subst (λ (x : ℕ). path (table_from_entry page x) ≡ i ∷ path t) (sym r)
          (tree.child_path t i h u (omega (arith, p, r)));
  }

  -- An address whose way through the tables does not end at the entry.
  put-in_pd :
      (t virt : ℕ)
      → (t == m && pd_index virt == c) ≡ false
      → in_pd (put s m c value) t virt ≡ in_pd s t virt
  unfolding put
  put-in_pd t virt other = rw other refl

  abbrev Elsewhere : ℕ → ℕ → Type 0
  Elsewhere t virt =
      (k : ℕ) → path k ≡ pdpt_index virt ∷ path t → (k == m && pd_index virt == c) ≡ false

  put-in_pdpt :
      (t virt : ℕ)
      → t < s.page_pool_used
      → length (path t) ≡ 1
      → Elsewhere t virt
      → in_pdpt page (put s m c value) t virt ≡ in_pdpt page s t virt
  put-in_pdpt t virt h depth away =
      let b = pdpt_index virt in
      let upper : length (path t) ≤ 1 = omega (arith, depth) in
      elim (Bool-cases (s.page_pool t b % 2 == 0)) [
        | inl none_ ↦ rw (read_upper t b upper, none_) refl
        | inr some_ ↦
            rw (read_upper t b upper, some_)
              (put-in_pd (table_from_entry page (s.page_pool t b)) virt
                (away _ (tree.child_path t b h upper (ground (arith, some_)))))
      ]

  pub put-top : (put s m c value).pml4 ≡ s.pml4
  unfolding put
  put-top = refl

  pub put-reach :
      (virt : ℕ)
      → ((k : ℕ)
          → path k ≡ pdpt_index virt ∷ pml4_index virt ∷ []
          → (k == m && pd_index virt == c) ≡ false)
      → reach page (put s m c value) virt ≡ reach page s virt
  put-reach virt away =
      let a = pml4_index virt in
      let depth : length (path s.pml4) ≡ 0 = ap (λ (p : List ℕ). length p) tree.top in
      let upper : length (path s.pml4) ≤ 1 = omega (arith, depth) in
      let r = read_upper s.pml4 a upper in
      elim (Bool-cases (s.page_pool s.pml4 a % 2 == 0)) [
        | inl none_ ↦ rw (put-top, r, none_) refl
        | inr some_ ↦
            let k = table_from_entry page (s.page_pool s.pml4 a) in
            let present : s.page_pool s.pml4 a % 2 ≡ 1 = ground (arith, some_) in
            let way = tree.child_path s.pml4 a tree.top_used upper present in
            let way' : path k ≡ a ∷ [] = way ∙ ap (λ (p : List ℕ). a ∷ p) tree.top in
            rw (put-top, r, some_)
              (put-in_pdpt k virt (tree.child_used s.pml4 a tree.top_used upper present)
                (ap (λ (p : List ℕ). length p) way')
                (λ j q. away j (q ∙ ap (λ (p : List ℕ). pdpt_index virt ∷ p) way')))
      ]
