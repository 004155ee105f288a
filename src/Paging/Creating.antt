-- ===== src/Paging/Creating.antt =====
-- A table that kernel/arch/x86_64/paging.c adds to the tree.
use flare_os.Prelude.{
  ℕ, ◌+◌, ◌%◌, ◌≤◌, ◌<◌, ◌≡◌, refl, sym, ap, ◌∙◌, subst, inl, inr, true, false, ◌&&◌, List, ◌∷◌,
  none, arith, ◌==◌, if◌then◌else◌, length, Bool-cases,
}
use flare_os.Paging.{Paging, table_from_entry, table_entry, pml4_index, pdpt_index, pd_index}
use flare_os.Paging.Walking.{Tree, in_pd, in_pdpt, reach}

-- The state with a new, empty table below an entry.
abbrev pub created : ℕ → Paging → ℕ → ℕ → Paging
created page s table index = record s {
  page_pool = λ t i.
      if t == table && i == index
      then table_entry page s.page_pool_used
      else if t == s.page_pool_used
      then 0
      else s.page_pool t i;
  page_pool_used = s.page_pool_used + 1;
}

pub new_child : (page k : ℕ) → table_from_entry page (table_entry page k) ≡ k
new_child page k = omega arith

pub new_present : (page k : ℕ) → (table_entry page k % 2 == 0) ≡ false
new_present page k = ground arith

module _ (page : ℕ) (s : Paging) (table index : ℕ) (below : table < s.page_pool_used) where
  pub read_entry :
      (created page s table index).page_pool table index ≡ table_entry page s.page_pool_used
  read_entry = ground arith

  read_same :
      (t i : ℕ)
      → (t == table && i == index) ≡ true
      → (created page s table index).page_pool t i ≡ table_entry page s.page_pool_used
  read_same t i h = rw h refl

  read_new : (i : ℕ) → (created page s table index).page_pool s.page_pool_used i ≡ 0
  read_new i = ground (arith, below)

  pub read_other :
      (t i : ℕ)
      → t < s.page_pool_used
      → (t == table && i == index) ≡ false
      → (created page s table index).page_pool t i ≡ s.page_pool t i
  read_other t i h ne = rw ne (ground arith)

  new_in_pd : (virt : ℕ) → in_pd (created page s table index) s.page_pool_used virt ≡ none
  new_in_pd virt = rw (read_new (pd_index virt)) refl

  new_in_pdpt : (virt : ℕ) → in_pdpt page (created page s table index) s.page_pool_used virt ≡ none
  new_in_pdpt virt = rw (read_new (pdpt_index virt)) refl

-- The path of the new table, and of those before.
abbrev pub longer_path : Paging → (ℕ → List ℕ) → ℕ → ℕ → ℕ → List ℕ
longer_path s path table index t = if t == s.page_pool_used then index ∷ path table else path t

module _ (page : ℕ) (s : Paging) (path : ℕ → List ℕ) (table index : ℕ) (tree : Tree page s path)
    (below : table < s.page_pool_used) (upper : length (path table) ≤ 1)
    (absent : s.page_pool table index % 2 ≡ 0) where
  not_upper : (t i : ℕ) → 2 ≤ length (path t) → (t == table && i == index) ≡ false
  not_upper t i deep = elim (Bool-cases (t == table)) [
    | inl same ↦
        let e : t ≡ table = ground (arith, same) in
        absurd (omega (arith, deep, upper, ap (λ (k : ℕ). length (path k)) e))
    | inr other ↦ rw other refl
  ]

  absent_at : (t i : ℕ) → (t == table && i == index) ≡ true → s.page_pool t i % 2 ≡ 0
  absent_at t i h =
      let e : t ≡ table = ground (arith, h) in
      let f : i ≡ index = ground (arith, h) in rw (e, f) absent

  absent_pdpt :
      (t virt : ℕ) → s.page_pool t (pdpt_index virt) % 2 ≡ 0 → in_pdpt page s t virt ≡ none
  absent_pdpt t virt h = rw h refl

  absent_top : (virt : ℕ) → s.page_pool s.pml4 (pml4_index virt) % 2 ≡ 0 → reach page s virt ≡ none
  absent_top virt h = rw h refl

  created-in_pd :
      (t virt : ℕ)
      → t < s.page_pool_used
      → 2 ≤ length (path t)
      → in_pd (created page s table index) t virt ≡ in_pd s t virt
  created-in_pd t virt h deep =
      rw
        (read_other page s table index below t (pd_index virt) h (not_upper t (pd_index virt) deep))
        refl

  created-in_pdpt :
      (t virt : ℕ)
      → t < s.page_pool_used
      → length (path t) ≡ 1
      → in_pdpt page (created page s table index) t virt ≡ in_pdpt page s t virt
  created-in_pdpt t virt h depth =
      let b = pdpt_index virt in
      elim (Bool-cases (t == table && b == index)) [
        | inl same ↦
            rw
              (
                read_same page s table index below t b same,
                new_present page s.page_pool_used,
                new_child page s.page_pool_used,
              )
              (new_in_pd page s table index below virt
                ∙ sym (absent_pdpt t virt (absent_at t b same)))
        | inr other ↦ elim (Bool-cases (s.page_pool t b % 2 == 0)) [
          | inl none_ ↦ rw (read_other page s table index below t b h other, none_) refl
          | inr some_ ↦
              let present : s.page_pool t b % 2 ≡ 1 = ground (arith, some_) in
              let k = table_from_entry page (s.page_pool t b) in
              rw (read_other page s table index below t b h other, some_)
                (created-in_pd k virt (tree.child_used t b h (omega (arith, depth)) present) (
                  omega (
                    arith,
                    depth,
                    ap (λ (p : List ℕ). length p)
                        (tree.child_path t b h (omega (arith, depth)) present),
                  )))
        ]
      ]

  -- An empty table changes nothing of what the processor finds.
  pub created-reach : (virt : ℕ) → reach page (created page s table index) virt ≡ reach page s virt
  created-reach virt =
      let a = pml4_index virt in
      let h = tree.top_used in
      let depth : length (path s.pml4) ≡ 0 = ap (λ (p : List ℕ). length p) tree.top in
      elim (Bool-cases (s.pml4 == table && a == index)) [
        | inl same ↦
            rw
              (
                read_same page s table index below s.pml4 a same,
                new_present page s.page_pool_used,
                new_child page s.page_pool_used,
              )
              (new_in_pdpt page s table index below virt
                ∙ sym (absent_top virt (absent_at s.pml4 a same)))
        | inr other ↦ elim (Bool-cases (s.page_pool s.pml4 a % 2 == 0)) [
          | inl none_ ↦ rw (read_other page s table index below s.pml4 a h other, none_) refl
          | inr some_ ↦
              let present : s.page_pool s.pml4 a % 2 ≡ 1 = ground (arith, some_) in
              let k = table_from_entry page (s.page_pool s.pml4 a) in
              rw (read_other page s table index below s.pml4 a h other, some_)
                (created-in_pdpt k virt (tree.child_used s.pml4 a h (omega (arith, depth)) present)
                  (omega (
                    arith,
                    depth,
                    ap (λ (p : List ℕ). length p)
                        (tree.child_path s.pml4 a h (omega (arith, depth)) present),
                  )))
        ]
      ]

  pub old_path : (t : ℕ) → t < s.page_pool_used → longer_path s path table index t ≡ path t
  old_path t h = let e : (t == s.page_pool_used) ≡ false = ground arith in rw e refl

  pub new_path : longer_path s path table index s.page_pool_used ≡ index ∷ path table
  new_path = let e : (s.page_pool_used == s.page_pool_used) ≡ true = ground arith in rw e refl

  abbrev Child : ℕ → ℕ → ℕ → Type 0
  Child t i k =
      (k < s.page_pool_used + 1)
      × (longer_path s path table index k ≡ i ∷ longer_path s path table index t)

  child_of :
      (t i : ℕ)
      → t < s.page_pool_used + 1
      → length (longer_path s path table index t) ≤ 1
      → (created page s table index).page_pool t i % 2 ≡ 1
      → (table_from_entry page ((created page s table index).page_pool t i) < s.page_pool_used + 1)
        × (longer_path s path table index
              (table_from_entry page ((created page s table index).page_pool t i))
            ≡ i ∷ longer_path s path table index t)
  child_of t i h upper_ present = elim (Bool-cases (t == s.page_pool_used)) [
    | inl new ↦
        let e : t ≡ s.page_pool_used = ground (arith, new) in
        absurd (
          omega (
            arith,
            present,
            ap (λ (k : ℕ). (created page s table index).page_pool k i) e,
            read_new page s table index below i,
          ))
    | inr old ↦
        let before : t < s.page_pool_used = ground (arith, old) in
        let upper' : length (path t) ≤ 1 =
          omega (arith, upper_, ap (λ (p : List ℕ). length p) (old_path t before)) in
        elim (Bool-cases (t == table && i == index)) [
          | inl same ↦
              let e : t ≡ table = ground (arith, same) in
              let f : i ≡ index = ground (arith, same) in
              subst (λ (x : ℕ). Child t i (table_from_entry page x))
                (sym (read_same page s table index below t i same))
                (subst (λ (k : ℕ). Child t i k) (sym (new_child page s.page_pool_used))
                  (
                    omega arith,
                    new_path
                        ∙ ap (λ (j : ℕ). j ∷ path table) (sym f)
                        ∙ ap (λ (p : List ℕ). i ∷ p)
                            (ap (λ (k : ℕ). path k) (sym e) ∙ sym (old_path t before)),
                  ))
          | inr other ↦
              let r = read_other page s table index below t i before other in
              let present' : s.page_pool t i % 2 ≡ 1 = omega (arith, present, r) in
              let inside = tree.child_used t i before upper' present' in
              subst (λ (x : ℕ). Child t i (table_from_entry page x)) (sym r)
                (
                  omega (arith, inside),
                  old_path (table_from_entry page (s.page_pool t i)) inside
                      ∙ tree.child_path t i before upper' present'
                      ∙ ap (λ (p : List ℕ). i ∷ p) (sym (old_path t before)),
                )
        ]
  ]

  pub created-Tree : Tree page (created page s table index) (longer_path s path table index)
  created-Tree = record {
    top = old_path s.pml4 tree.top_used ∙ tree.top;
    top_used = omega (arith, tree.top_used);
    child_used = λ t i h u p. (child_of t i h u p).0;
    child_path = λ t i h u p. (child_of t i h u p).1;
  }
