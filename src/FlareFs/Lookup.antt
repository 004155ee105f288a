-- ===== src/FlareFs/Lookup.antt =====
-- The files of kernel/fs/ext4.c as a map from names to contents, and what writing and removing does
-- to the map.
use flare_os.Prelude.{
  ℕ, zero, suc, ◌+◌, ◌≤◌, ◌≡◌, refl, ap, Bool, true, List, [], ◌∷◌, ◌++◌, Option, none, some, arith,
  inl, inr, if◌then◌else◌, get_or, set, Bool-cases,
}
use flare_os.BlockDevice.{BlockDevice}
use flare_os.FlareFs.State.{Fs, FsFile}
use flare_os.FlareFs.Ops.{
  same_text, find_slot_from, flarefs_find_slot, put_file, no_file, final_bytes, store_file,
  fs_write_file,
}
use flare_os.FlareFs.Cases.{write_cases}
use flare_os.FlareFs.Names.{same_text_sound, same_text_refl}

-- The contents of the first file of that name.
unfoldable pub lookup : List ℕ → List FsFile → Option (List ℕ)
lookup name [] = none
lookup name (file ∷ files) = if same_text file.name name then some file.bytes else lookup name files

-- What a write puts into a file that held `old`.
unfoldable pub written : Option (List ℕ) → List ℕ → Bool → List ℕ
written none bytes append = bytes
written (some old) bytes append = if append then old ++ bytes else bytes

find_none-lookup :
    (i : ℕ) (files : List FsFile) (name : List ℕ)
    → find_slot_from i files name ≡ none
    → lookup name files ≡ none
unfolding find_slot_from lookup
find_none-lookup i [] name h = refl
find_none-lookup i (file ∷ files) name h = ground (arith, find_none-lookup (i + 1) files name)

pub find_some-le :
    (i : ℕ) (files : List FsFile) (name : List ℕ) {s : ℕ}
    → find_slot_from i files name ≡ some s
    → i ≤ s
unfolding find_slot_from
find_some-le i [] name h = cc
find_some-le i (file ∷ files) name {s} h = ground (arith, find_some-le (i + 1) files name {s = s})

find_some-lookup :
    (i k : ℕ) (files : List FsFile) (name : List ℕ)
    → find_slot_from i files name ≡ some (i + k)
    → lookup name files ≡ some (get_or files k no_file).bytes
unfolding find_slot_from lookup
find_some-lookup i k [] name h = cc
find_some-lookup i zero (file ∷ files) name h =
    ground (arith, find_some-le (i + 1) files name {s = i + 0})
find_some-lookup i (suc k) (file ∷ files) name h = elim (Bool-cases (same_text file.name name)) [
  | inl same ↦ ground arith
  | inr other ↦
      let shift : i + suc k ≡ i + 1 + k = omega arith in
      rw other (find_some-lookup (i + 1) k files name (rw (← shift) (rw other at h)))
]

lookup-append :
    (q : List ℕ) (files : List FsFile) (file : FsFile)
    → lookup file.name files ≡ none
    → lookup q (files ++ file ∷ [])
      ≡ (if same_text file.name q then some file.bytes else lookup q files)
unfolding lookup
lookup-append q [] file h = refl
lookup-append q (f ∷ files) file h = ground (
  arith,
  lookup-append q files file,
  same_text_sound f.name q,
  same_text_sound file.name q,
  same_text_refl q,
)

lookup-set :
    (q : List ℕ) (i k : ℕ) (files : List FsFile) (file : FsFile)
    → find_slot_from i files file.name ≡ some (i + k)
    → lookup q (set files k file)
      ≡ (if same_text file.name q then some file.bytes else lookup q files)
unfolding lookup find_slot_from
lookup-set q i k [] file h = cc
lookup-set q i zero (f ∷ files) file h =
    ground
      (arith, same_text_sound f.name file.name, find_some-le (i + 1) files file.name {s = i + 0})
lookup-set q i (suc k) (f ∷ files) file h = elim (Bool-cases (same_text f.name file.name)) [
  | inl same ↦ ground arith
  | inr other ↦
      let shift : i + suc k ≡ i + 1 + k = omega arith in
      let rest = lookup-set q (i + 1) k files file (rw (← shift) (rw other at h)) in
      ground (arith, rest, same_text_sound f.name q, same_text_sound file.name q, same_text_refl q)
]

lookup-put_file :
    (q : List ℕ) (files : List FsFile) (file : FsFile) (slot : Option ℕ)
    → find_slot_from 0 files file.name ≡ slot
    → lookup q (put_file files slot file)
      ≡ (if same_text file.name q then some file.bytes else lookup q files)
unfolding put_file
lookup-put_file q files file none h =
    lookup-append q files file (find_none-lookup 0 files file.name h)
lookup-put_file q files file (some k) h =
    let k' : k ≡ 0 + k = omega arith in lookup-set q 0 k files file (rw (← k') h)

-- The contents that a write settles on, from the slot and from the map.
final_bytes-written :
    (fs : Fs) (name bytes : List ℕ) (append : Bool) (slot : Option ℕ)
    → find_slot_from 0 fs.files name ≡ slot
    → final_bytes fs slot bytes append ≡ written (lookup name fs.files) bytes append
unfolding final_bytes written
final_bytes-written fs name bytes append none h = rw (find_none-lookup 0 fs.files name h) refl
final_bytes-written fs name bytes append (some k) h =
    let k' : k ≡ 0 + k = omega arith in rw (find_some-lookup 0 k fs.files name (rw (← k') h)) refl

pub slot_of : (fs : Fs) (name : List ℕ) → find_slot_from 0 fs.files name ≡ flarefs_find_slot fs name
unfolding flarefs_find_slot
slot_of fs name = refl

module _ {D : Type 0} (dev : BlockDevice D) where
  pub store_file-files :
      (fs : Fs) (d : D) (name bytes : List ℕ) (slot : Option ℕ) (index : ℕ)
      → (store_file dev fs d name bytes slot index).0 ≡ true
      → (store_file dev fs d name bytes slot index).1.files
        ≡ put_file fs.files slot (record { name = name; bytes = bytes; dir_index = index })
  unfolding store_file
  store_file-files fs d name bytes slot index h = ground arith

  -- A write that succeeds changes the map at its name only: there it leaves the new text, behind the
  -- old contents if it appends to an existing file.
  pub lookup-fs_write_file :
      (fs : Fs) (d : D) (name bytes : List ℕ) (append : Bool) (q : List ℕ)
      → (fs_write_file dev fs d name bytes append).0 ≡ true
      → lookup q (fs_write_file dev fs d name bytes append).1.files ≡ (
          if same_text name q
          then some (written (lookup name fs.files) bytes append)
          else lookup q fs.files)
  lookup-fs_write_file fs d name bytes append q h = elim (write_cases dev fs d name bytes append) [
    | inl nothing ↦ cc (ap (λ (r : Bool × Fs × D). r.0) nothing)
    | inr (index, _, went, _, _) ↦
        let slot = flarefs_find_slot fs name in
        let final = final_bytes fs slot bytes append in
        let file : FsFile = record { name = name; bytes = final; dir_index = index } in
        rw
          (
            went,
            store_file-files fs d name final slot index (rw went at h),
            lookup-put_file q fs.files file slot (slot_of fs name),
            final_bytes-written fs name bytes append slot (slot_of fs name),
          )
          refl
  ]
