-- ===== src/Paging/Ranges.antt =====
-- Ranges of pages that kernel/arch/x86_64/paging.c maps, and the tables that it starts with.
use flare_os.Prelude.{
  ℕ, zero, suc, ◌+◌, ◌-◌, ◌*◌, ◌/◌, ◌%◌, ◌^◌, ◌≤◌, ◌<◌, ◌≡◌, ◌⊎◌, refl, inl, inr, Bool, false, ◌&&◌,
  List, Option, none, some, arith, ltb, leb, ◌==◌, if◌then◌else◌,
}
use flare_os.Paging.{Paging, map_pages}
use flare_os.Paging.Walking.{Tree, reach}
use flare_os.Paging.Mapping.{Maps, map_2mb-cases}

abbrev pub within : ℕ → ℕ → ℕ → Bool
within first rounds q = leb first q && ltb q (first + rounds)

-- The addresses of so many pages from `virt` on lead to the memory from `phys` on, and all others where
-- they led before.
abbrev pub MapsRange : ℕ → Paging → ℕ → ℕ → ℕ → Paging → Type 0
MapsRange page s virt phys rounds s' =
    (v : ℕ)
    → v < 2 ^ 48
    → reach page s' v ≡ (
        if within (virt / 2 ^ 21) rounds (v / 2 ^ 21)
        then some ((phys / 2 ^ 21 + (v / 2 ^ 21 - virt / 2 ^ 21)) * 2 ^ 21 + v % 2 ^ 21)
        else reach page s v)

page_then_range :
    (x0 x1 x2 : Option ℕ) (p f q w rounds : ℕ)
    → x1 ≡ (if q == p then some (f * 2 ^ 21 + w) else x0)
    → x2 ≡ (if within (p + 1) rounds q then some ((f + 1 + (q - (p + 1))) * 2 ^ 21 + w) else x1)
    → x2 ≡ (if within p (suc rounds) q then some ((f + (q - p)) * 2 ^ 21 + w) else x0)
page_then_range x0 x1 x2 p f q w rounds one rest = ground arith

empty_range : (x : Option ℕ) (p q : ℕ) (o : Option ℕ) → x ≡ (if within p 0 q then o else x)
empty_range x p q o = let out : within p 0 q ≡ false = ground arith in rw out refl

range_step :
    (page : ℕ) (s s1 s2 : Paging) (virt phys flags rounds : ℕ) (path : ℕ → List ℕ)
    (tree : Tree page s path)
    → Maps page s path virt phys flags tree s1
    → MapsRange page s1 (virt + 2 ^ 21) (phys + 2 ^ 21) rounds s2
    → MapsRange page s virt phys (suc rounds) s2
range_step page s s1 s2 virt phys flags rounds path tree one rest v h =
    let first = one v h in
    let others = rest v h in
    let next : (virt + 2 ^ 21) / 2 ^ 21 ≡ virt / 2 ^ 21 + 1 = omega arith in
    let next_phys : (phys + 2 ^ 21) / 2 ^ 21 ≡ phys / 2 ^ 21 + 1 = omega arith in
    page_then_range (reach page s v) (reach page s1 v) (reach page s2 v) (virt / 2 ^ 21)
      (phys / 2 ^ 21) (v / 2 ^ 21) (v % 2 ^ 21) rounds first (rw (next, next_phys) at others)

pub map_pages-cases :
    (page : ℕ) (s : Paging) (path : ℕ → List ℕ) (virt phys flags rounds : ℕ)
    → Tree page s path
    → virt + rounds * 2 ^ 21 ≤ 2 ^ 48
    → phys + rounds * 2 ^ 21 < 2 ^ 64
    → (map_pages page s virt phys flags rounds ≡ none)
      ⊎ ((s' : Paging) × (path' : ℕ → List ℕ) × (map_pages page s virt phys flags rounds ≡ some s')
          × Tree page s' path'
          × MapsRange page s virt phys rounds s')
unfolding map_pages
map_pages-cases page s path virt phys flags zero tree fits below = inr (
  s,
  path,
  refl,
  tree,
  λ v h.
      empty_range (reach page s v) (virt / 2 ^ 21) (v / 2 ^ 21)
        (some ((phys / 2 ^ 21 + (v / 2 ^ 21 - virt / 2 ^ 21)) * 2 ^ 21 + v % 2 ^ 21)),
)
map_pages-cases page s path virt phys flags (suc rounds) tree fits below =
    let wrap : (phys + 2 ^ 21) % 2 ^ 64 ≡ phys + 2 ^ 21 = omega arith in
    elim (map_2mb-cases page s path virt phys flags tree (omega arith)) [
      | inl full ↦ inl (rw full refl)
      | inr (s1, path1, e1, tree1, one) ↦
          elim (map_pages-cases page s1 path1 (virt + 2 ^ 21) (phys + 2 ^ 21) flags rounds tree1
            (omega arith) (omega arith)) [
              | inl full ↦ inl (rw (e1, wrap, full) refl)
              | inr (s2, path2, e2, tree2, rest) ↦ inr (
                s2,
                path2,
                rw (e1, wrap, e2) refl,
                tree2,
                range_step page s s1 s2 virt phys flags rounds path tree one rest,
              )
            ]
    ]
