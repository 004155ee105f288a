-- ===== src/Keyboard/Modifiers.antt =====
-- The keys that kernel/drivers/keyboard.c produces, and the prefix and modifier scancodes.
use flare_os.Prelude.{
  ℕ, zero, suc, ◌<◌, ◌≡◌, refl, ap, ◌∙◌, ◌≢◌, Option, none, some, Bool, true, false, not, ◌&&◌,
  ◌||◌, ltb, leb, ◌==◌, arith,
}
use flare_os.Key
use flare_os.Keyboard.{
  Keyboard, Layout, qwerty, azerty, keymap, ext_key, modify, translate, decode, keyboard_handle_irq,
  enqueue_decoded,
}
use flare_os.Keyboard.Ring.{contents, contents-decode}

-- A property of codes that holds at each code below a bound.
every_code : (ℕ → Bool) → ℕ → Bool
every_code holds zero = true
every_code holds (suc bound) = every_code holds bound && holds bound

every_code-at :
    (holds : ℕ → Bool) (bound : ℕ) {code : ℕ}
    → code < bound
    → every_code holds bound ≡ true
    → holds code ≡ true
unfolding every_code
every_code-at holds zero under all = absurd (omega arith)
every_code-at holds (suc bound) {code} under all =
    ground (arith, every_code-at holds bound {code = code})

-- The codes that the shell and the programs expect: enter, backspace, tab, a printable character, a
-- function or cursor key, or a letter with the control bit.
abbrev pub is_key : ℕ → Bool
is_key key =
    (leb 8 key && leb key 10)
    || (leb 0x20 key && leb key 0x7e)
    || (leb Key.esc key && leb key Key.del)
    || (leb 0x261 key && leb key 0x27a)

-- The keys of an unmodified keymap, 0 for none.
plain_key : ℕ → Bool
plain_key key = key == 0 || is_key key && ltb key 0x200

abbrev plain_code : ℕ → Bool
plain_code code =
    plain_key (keymap qwerty code) && (plain_key (keymap azerty code) && plain_key (ext_key code))

plain_table : every_code plain_code 128 ≡ true
unfolding every_code plain_key keymap ext_key
plain_table = refl

abbrev modified_is_key : Bool → Bool → Bool → ℕ → Bool
modified_is_key ctrl shift caps key =
    not (plain_key key) || (key == 0 || is_key (modify ctrl shift caps key))

modify_table : (ctrl shift caps : Bool) → every_code (modified_is_key ctrl shift caps) 0x200 ≡ true
unfolding every_code plain_key modify
modify_table true true true = refl
modify_table true true false = refl
modify_table true false true = refl
modify_table true false false = refl
modify_table false true true = refl
modify_table false true false = refl
modify_table false false true = refl
modify_table false false false = refl

plain_key-lt : (key : ℕ) → plain_key key ≡ true → key < 0x200
unfolding plain_key
plain_key-lt key h = ground arith

modify-is_key :
    (ctrl shift caps : Bool) (key : ℕ)
    → plain_key key ≡ true
    → key ≢ 0
    → is_key (modify ctrl shift caps key) ≡ true
unfolding plain_key
modify-is_key ctrl shift caps key plain some_key = ground (
  arith,
  every_code-at (modified_is_key ctrl shift caps) 0x200 {code = key} (plain_key-lt key plain)
      (modify_table ctrl shift caps),
)

keymap-plain_key : (layout : Layout) (code : ℕ) → code < 128 → plain_key (keymap layout code) ≡ true
keymap-plain_key qwerty code h =
    ground (arith, every_code-at plain_code 128 {code = code} h plain_table)
keymap-plain_key azerty code h =
    ground (arith, every_code-at plain_code 128 {code = code} h plain_table)

ext_key-plain_key : (code : ℕ) → code < 128 → plain_key (ext_key code) ≡ true
ext_key-plain_key code h = ground (arith, every_code-at plain_code 128 {code = code} h plain_table)

translate-is_key :
    (k : Keyboard) (scancode : ℕ) {key : ℕ}
    → (translate k scancode).1 ≡ some key
    → is_key key ≡ true
unfolding translate plain_key
translate-is_key k scancode h = ground (
  arith,
  modify-is_key k.ctrl k.shift k.caps (keymap k.layout scancode),
  keymap-plain_key k.layout scancode,
  ext_key-plain_key scancode,
)

-- Every key that a scancode decodes to, with any modifiers and either layout, is a control
-- character, a printable character, a function or cursor key, or a letter with the control bit.
pub decode-is_key :
    (k : Keyboard) (scancode : ℕ) {key : ℕ} → (decode k scancode).1 ≡ some key → is_key key ≡ true
unfolding decode
decode-is_key k scancode {key} h = ground (arith, translate-is_key k scancode {key = key})

-- Scancodes that `keyboard_handle_irq` reads as a modifier or a prefix.
abbrev pub is_modifier : ℕ → Bool
is_modifier code =
    code == 0xE0 || (code == 0x1D || (code == 0x2A || (code == 0x36 || code == 0x3A)))

extended-unknown :
    (k : Keyboard) (scancode : ℕ)
    → k.extended ≡ true
    → scancode < 128
    → is_modifier scancode ≡ false
    → ext_key scancode ≡ 0
    → (decode k scancode).1 ≡ none
unfolding decode translate
extended-unknown k scancode prefix low plain unknown = ground arith

enqueue_decoded-none : (r : Keyboard × Option ℕ) → r.1 ≡ none → enqueue_decoded r ≡ r.0
enqueue_decoded-none (k, none) h = refl
enqueue_decoded-none (k, some key) h = cc

prefix-ctrl :
    (k : Keyboard)
    → keyboard_handle_irq (keyboard_handle_irq k 0xE0) 0x1D
      ≡ record k { extended = true; ctrl = true }
unfolding keyboard_handle_irq decode
prefix-ctrl k = refl

-- The right control key sends 0xE0 0x1D. The modifier's early return leaves the prefix set, so the
-- key that is pressed with it is looked up among the extended keys, and lost if it is none of them:
-- nothing is added to the ring.
pub right_ctrl_loses_key :
    (k : Keyboard) (scancode : ℕ)
    → scancode < 128
    → is_modifier scancode ≡ false
    → ext_key scancode ≡ 0
    → let held = keyboard_handle_irq (keyboard_handle_irq k 0xE0) 0x1D in
      (held.ctrl ≡ true) × (contents (keyboard_handle_irq held scancode) ≡ contents k)
unfolding keyboard_handle_irq
right_ctrl_loses_key k scancode low plain unknown =
    let held = record k { extended = true; ctrl = true } in
    (
      ap (λ (h : Keyboard). h.ctrl) (prefix-ctrl k),
      ap (λ (h : Keyboard). contents (keyboard_handle_irq h scancode)) (prefix-ctrl k)
          ∙ ap contents
              (enqueue_decoded-none _ (extended-unknown held scancode refl low plain unknown))
          ∙ contents-decode held scancode,
    )
