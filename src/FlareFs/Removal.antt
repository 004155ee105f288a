-- ===== src/FlareFs/Removal.antt =====
-- `fs_remove_file` of kernel/fs/ext4.c, and that no two files share a name.
use flare_os.Prelude.{
  ℕ, zero, suc, ◌+◌, ◌≡◌, refl, ap, Bool, true, false, List, [], ◌∷◌, none, some, inl, inr, arith,
  Bool-cases, ◌∙◌, if◌then◌else◌,
}
use flare_os.BlockDevice.{BlockDevice}
use flare_os.FlareFs.State.{Fs, FsFile}
use flare_os.FlareFs.Ops.{same_text, find_slot_from, remove_at, remove_slot, fs_remove_file}
use flare_os.FlareFs.Cases.{remove_cases}
use flare_os.FlareFs.Names.{same_text_sound}
use flare_os.FlareFs.Lookup.{lookup, find_some-le, slot_of}

-- No file has the name of a later one.
abbrev pub Distinct : List FsFile → Type 0
Distinct [] = Unit {0}
Distinct (file ∷ files) = (lookup file.name files ≡ none) × Distinct files

lookup-remove_at_ne :
    (i k : ℕ) (files : List FsFile) (name q : List ℕ)
    → find_slot_from i files name ≡ some (i + k)
    → same_text name q ≡ false
    → lookup q (remove_at k files) ≡ lookup q files
unfolding lookup remove_at find_slot_from
lookup-remove_at_ne i k [] name q h ne = refl
lookup-remove_at_ne i zero (f ∷ files) name q h ne =
    ground (arith, same_text_sound f.name name, find_some-le (i + 1) files name {s = i + 0})
lookup-remove_at_ne i (suc k) (f ∷ files) name q h ne =
    let shift : i + suc k ≡ i + 1 + k = omega arith in
    ground
      (arith, shift, lookup-remove_at_ne (i + 1) k files name q, find_some-le (i + 1) files name)

lookup-remove_at_self :
    (i k : ℕ) (files : List FsFile) (name : List ℕ)
    → find_slot_from i files name ≡ some (i + k)
    → Distinct files
    → lookup name (remove_at k files) ≡ none
unfolding lookup remove_at find_slot_from
lookup-remove_at_self i k [] name h s = refl
lookup-remove_at_self i zero (f ∷ files) name h s =
    ground (arith, same_text_sound f.name name, find_some-le (i + 1) files name {s = i + 0})
lookup-remove_at_self i (suc k) (f ∷ files) name h s =
    let shift : i + suc k ≡ i + 1 + k = omega arith in
    ground (arith, shift, lookup-remove_at_self (i + 1) k files name)

lookup-remove_at :
    (k : ℕ) (files : List FsFile) (name q : List ℕ)
    → find_slot_from 0 files name ≡ some k
    → Distinct files
    → lookup q (remove_at k files) ≡ (if same_text name q then none else lookup q files)
lookup-remove_at k files name q h s =
    let k' : k ≡ 0 + k = omega arith in
    elim (Bool-cases (same_text name q)) [
      | inl same ↦
          rw (same, ← same_text_sound name q same)
            (lookup-remove_at_self 0 k files name (rw (← k') h) s)
      | inr other ↦ rw other (lookup-remove_at_ne 0 k files name q (rw (← k') h) other)
    ]

module _ {D : Type 0} (dev : BlockDevice D) where
  remove_slot-files :
      (fs : Fs) (d : D) (slot : ℕ)
      → (remove_slot dev fs d slot).0 ≡ true
      → (remove_slot dev fs d slot).1.files ≡ remove_at slot fs.files
  unfolding remove_slot
  remove_slot-files fs d slot h = ground arith

  -- A removal that succeeds takes the name away and leaves every other name's contents, when no two
  -- files share a name.
  pub lookup-fs_remove_file :
      (fs : Fs) (d : D) (name q : List ℕ)
      → Distinct fs.files
      → (fs_remove_file dev fs d name).0 ≡ true
      → lookup q (fs_remove_file dev fs d name).1.files
        ≡ (if same_text name q then none else lookup q fs.files)
  lookup-fs_remove_file fs d name q s h = elim (remove_cases dev fs d name) [
    | inl nothing ↦ cc (ap (λ (r : Bool × Fs × D). r.0) nothing)
    | inr (slot, found, went, _) ↦
        rw (went, remove_slot-files fs d slot (rw went at h))
          (lookup-remove_at slot fs.files name q (slot_of fs name ∙ found) s)
  ]
