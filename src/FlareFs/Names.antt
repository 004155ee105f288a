-- ===== src/FlareFs/Names.antt =====
-- Which names `flarefs_valid_name` of kernel/fs/ext4.c accepts.
use flare_os.Prelude.{
  ℕ, ◌+◌, ◌≤◌, ◌<◌, ◌≡◌, refl, ◌≢◌, ◌↔◌, true, false, List, [], ◌∷◌, arith, length,
}
use flare_os.CString.Copying.{NoNul}
use flare_os.FlareFs.Ops.{same_text, refused_char, valid_from, flarefs_valid_name}

-- A character that a name may have: a visible one of ASCII (or DEL), and no slash of either kind.
abbrev pub NameChar : ℕ → Type 0
NameChar ch = (b' ' < ch) × (ch < 128) × (ch ≢ b'/') × (ch ≢ 0x5c)

abbrev pub NameChars : List ℕ → Type 0
NameChars [] = Unit {0}
NameChars (ch ∷ name) = NameChar ch × NameChars name

refused_char_iff : (ch : ℕ) → (refused_char ch ≡ false) ↔ NameChar ch
unfolding refused_char
refused_char_iff ch = (λ h. ground arith, λ h. ground arith)

valid_from_sound :
    (len : ℕ) (name : List ℕ)
    → len ≤ 47
    → valid_from len name ≡ true
    → (len + length name ≤ 47) × NameChars name
unfolding valid_from
valid_from_sound len [] h v = (omega arith, tt)
valid_from_sound len (ch ∷ name) h v =
    ground (arith, refused_char_iff ch, valid_from_sound (len + 1) name)

valid_from_complete :
    (len : ℕ) (name : List ℕ) → len + length name ≤ 47 → NameChars name → valid_from len name ≡ true
unfolding valid_from
valid_from_complete len [] h c = refl
valid_from_complete len (ch ∷ name) h c =
    ground (arith, refused_char_iff ch, valid_from_complete (len + 1) name (omega arith) c.1)

-- A name is accepted exactly when it has 1 to 47 characters, each of them a visible ASCII character
-- other than the two slashes: it fits the 48 bytes of a directory entry with its NUL.
pub flarefs_valid_name_iff :
    (name : List ℕ)
    → (flarefs_valid_name name ≡ true) ↔ ((1 ≤ length name) × (length name ≤ 47) × NameChars name)
unfolding flarefs_valid_name
flarefs_valid_name_iff [] = (λ h. cc, λ h. absurd (omega arith))
flarefs_valid_name_iff (ch ∷ name) = (
  λ h.
      let s = valid_from_sound 0 (ch ∷ name) (omega arith) h in
      (omega arith, omega (arith, s.0), s.1),
  λ h. valid_from_complete 0 (ch ∷ name) (omega arith) h.2,
)

pub NameChars-NoNul : (name : List ℕ) → NameChars name → NoNul name
NameChars-NoNul [] h = tt
NameChars-NoNul (ch ∷ name) h = (omega arith, NameChars-NoNul name h.1)

pub same_text_sound : (a b : List ℕ) → same_text a b ≡ true → a ≡ b
unfolding same_text
same_text_sound [] [] h = refl
same_text_sound [] (y ∷ b) h = cc
same_text_sound (x ∷ a) [] h = cc
same_text_sound (x ∷ a) (y ∷ b) h = ground (arith, same_text_sound a b)

pub same_text_refl : (a : List ℕ) → same_text a a ≡ true
unfolding same_text
same_text_refl [] = refl
same_text_refl (x ∷ a) = ground (arith, same_text_refl a)
