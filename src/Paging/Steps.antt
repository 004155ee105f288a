-- ===== src/Paging/Steps.antt =====
-- What a step of the walk of kernel/arch/x86_64/paging.c does to the tables.
use flare_os.Prelude.{
  ℕ, ◌%◌, ◌≤◌, ◌<◌, ◌≡◌, ◌⊎◌, refl, inl, inr, ◌&&◌, List, ◌∷◌, none, some, arith, leb, ◌==◌, length,
  Bool-cases,
}
use flare_os.Paging.{Paging, put, alloc_table, table_from_entry, paging_walk_create}
use flare_os.Paging.Walking.{Tree, reach}
use flare_os.Paging.Creating.{
  created, longer_path, created-reach, created-Tree, new_path, new_child, read_entry, read_other,
}

-- What `paging_walk_create` leaves: an entry that leads to the table of the result, with the entries
-- that were present, and all that the processor finds, as they were.
pub record Walked (page : ℕ) (s : Paging) (path : ℕ → List ℕ) (t i k : ℕ) (s' : Paging)
    (path' : ℕ → List ℕ) : Type 0 where
  pub tree : Tree page s' path'
  pub used : k < s'.page_pool_used
  pub more : s.page_pool_used ≤ s'.page_pool_used
  pub at_path : path' k ≡ i ∷ path t
  pub same_top : s'.pml4 ≡ s.pml4
  pub present : s'.page_pool t i % 2 ≡ 1
  pub leads : table_from_entry page (s'.page_pool t i) ≡ k
  pub keeps :
      (x y : ℕ)
      → x < s.page_pool_used
      → s.page_pool x y % 2 ≡ 1
      → s'.page_pool x y ≡ s.page_pool x y
  pub same : (virt : ℕ) → reach page s' virt ≡ reach page s virt

module _ (page : ℕ) (s : Paging) (path : ℕ → List ℕ) (t i : ℕ) (tree : Tree page s path)
    (below : t < s.page_pool_used) (upper : length (path t) ≤ 1) where
  kept :
      s.page_pool t i % 2 ≡ 0
      → (x y : ℕ) → x < s.page_pool_used
      → s.page_pool x y % 2 ≡ 1
      → (created page s t i).page_pool x y ≡ s.page_pool x y
  kept absent x y h p = elim (Bool-cases (x == t && y == i)) [
    | inl same ↦
        let e : x ≡ t = ground (arith, same) in
        let f : y ≡ i = ground (arith, same) in absurd (omega (arith, p, rw (← e, ← f) at absent))
    | inr other ↦ read_other page s t i below x y h other
  ]

  created-Walked :
      s.page_pool t i % 2 ≡ 0
      → Walked page s path t i s.page_pool_used (created page s t i) (longer_path s path t i)
  created-Walked absent = record {
    tree = created-Tree page s path t i tree below upper absent;
    used = omega arith;
    more = omega arith;
    at_path = new_path page s path t i tree below upper absent;
    same_top = refl;
    present = rw (read_entry page s t i below) (omega arith);
    leads = rw (read_entry page s t i below) (new_child page s.page_pool_used);
    keeps = λ x y h p. kept absent x y h p;
    same = created-reach page s path t i tree below upper absent;
  }

  present-Walked :
      s.page_pool t i % 2 ≡ 1
      → Walked page s path t i (table_from_entry page (s.page_pool t i)) s path
  present-Walked p = record {
    tree = tree;
    used = tree.child_used t i below upper p;
    more = omega arith;
    at_path = tree.child_path t i below upper p;
    same_top = refl;
    present = p;
    leads = refl;
    keeps = λ x y h q. refl;
    same = λ virt. refl;
  }

  -- Either the tables have run out, or the walk goes on.
  pub walk-cases :
      (paging_walk_create page s t i ≡ none)
      ⊎ ((k : ℕ) × (s' : Paging) × (path' : ℕ → List ℕ) × (paging_walk_create page s t i
            ≡ some (k, s'))
          × Walked page s path t i k s' path')
  unfolding paging_walk_create alloc_table put
  walk-cases = elim (Bool-cases (s.page_pool t i % 2 == 0)) [
    | inl absent ↦ elim (Bool-cases (leb 256 s.page_pool_used)) [
      | inl full ↦ inl (rw (absent, full) refl)
      | inr room ↦ inr (
        s.page_pool_used,
        created page s t i,
        longer_path s path t i,
        rw (absent, room) refl,
        created-Walked (ground (arith, absent)),
      )
    ]
    | inr there ↦ inr (
      table_from_entry page (s.page_pool t i),
      s,
      path,
      rw there refl,
      present-Walked (ground (arith, there)),
    )
  ]
