-- ===== src/Keyboard.antt =====
-- kernel/drivers/keyboard.c: scancodes from the controller become keys in a ring of 32 entries,
-- which the main loop empties. The port read `inb(0x60)` is the argument `scancode`, a u8; the call
-- of the shell with the polled key is the key that `keyboard_poll_event` returns.
mod Keymaps
pub mod Modifiers
pub mod Ring
pub mod Delivery
mod Tests
use flare_os.Prelude.{
  ℕ, ◌+◌, ◌-◌, ◌/◌, ◌%◌, List, [], ◌∷◌, Option, none, some, Bool, true, false, not, ◌&&◌, ◌||◌, ltb,
  leb, ◌==◌, if◌then◌else◌, get_or, set, replicate, bit_or,
}
use mathlib.Core.Bool.{xor}
use flare_os.Key
use Keymaps.{qwerty_keymap, azerty_keymap, ext_keymap}

pub data Layout : Type 0 where
  qwerty azerty : Layout

pub record Keyboard : Type 0 where
  pub key_queue : List ℕ
  pub key_queue_head : ℕ
  pub key_queue_tail : ℕ
  pub layout : Layout
  pub shift : Bool
  pub caps : Bool
  pub extended : Bool
  pub ctrl : Bool

abbrev pub key_queue_size : ℕ
key_queue_size = 32

-- The driver's variables at start.
pub initial : Keyboard
initial = record {
  key_queue = replicate 32 0;
  key_queue_head = 0;
  key_queue_tail = 0;
  layout = qwerty;
  shift = false;
  caps = false;
  extended = false;
  ctrl = false;
}

-- An entry of an array that is initialised by designators: 0 where none names it.
entry : List (ℕ × ℕ) → ℕ → ℕ
entry [] scancode = 0
entry ((code, key) ∷ rest) scancode = if code == scancode then key else entry rest scancode

pub keymap : Layout → ℕ → ℕ
unfolding entry
keymap qwerty scancode = entry qwerty_keymap scancode
keymap azerty scancode = entry azerty_keymap scancode

pub ext_key : ℕ → ℕ
unfolding entry
ext_key scancode = entry ext_keymap scancode

abbrev shifted_keys : List (ℕ × ℕ)
shifted_keys =
    (b'1', b'!')
    ∷ (b'2', b'@')
    ∷ (b'3', b'#')
    ∷ (b'4', b'$')
    ∷ (b'5', b'%')
    ∷ (b'6', b'^')
    ∷ (b'7', b'&')
    ∷ (b'8', b'*')
    ∷ (b'9', b'(')
    ∷ (b'0', b')')
    ∷ (b'-', b'_')
    ∷ (b'=', b'+')
    ∷ (b'[', b'{')
    ∷ (b']', b'}')
    ∷ (b';', b':')
    ∷ (0x27, 0x22)
    ∷ (0x60, b'~')
    ∷ (0x5c, b'|')
    ∷ (b',', b'<')
    ∷ (b'.', b'>')
    ∷ (b'/', b'?')
    ∷ []

pub shift_value : ℕ → ℕ
unfolding entry
shift_value key = entry shifted_keys key

-- What the modifiers make of a key of the plain keymap.
pub modify : (ctrl shift caps : Bool) → ℕ → ℕ
unfolding shift_value xor
modify ctrl shift caps key =
    if ctrl && (leb b'a' key && leb key b'z')
    then bit_or 0x200 key
    else if leb b'a' key && leb key b'z'
    then (if xor shift caps then key - b'a' + b'A' else key)
    else if shift
    then (let s = shift_value key in if s == 0 then key else s)
    else key

-- The last lines of `keyboard_handle_irq`: a full ring drops the key.
pub enqueue : Keyboard → ℕ → Keyboard
enqueue k key =
    let next_head = (k.key_queue_head + 1) % key_queue_size % 256 in
    if next_head == k.key_queue_tail
    then k
    else record k { key_queue = set k.key_queue k.key_queue_head key; key_queue_head = next_head }

-- The modifiers and the key, if there is one, that a scancode other than a modifier's gives.
pub translate : Keyboard → ℕ → Keyboard × Option ℕ
translate k scancode =
    if k.extended
    then (let k' = record k { extended = false } in
        let key = ext_key scancode in
        if leb 128 scancode
        then (k', none)
        else if key == Key.none
        then (k', none)
        else (k', some key))
    else (let key = keymap k.layout scancode in
        if leb 128 scancode
        then (k, none)
        else if key == Key.none
        then (k, none)
        else (k, some (modify k.ctrl k.shift k.caps key)))

-- The whole decision on a scancode: `scancode & 0x80` is the top bit of a u8.
pub decode : Keyboard → ℕ → Keyboard × Option ℕ
decode k scancode =
    if scancode == 0xE0
    then (record k { extended = true }, none)
    else if scancode == 0x1D
    then (record k { ctrl = true }, none)
    else if scancode == 0x9D
    then (record k { ctrl = false }, none)
    else if scancode == 0x2A || scancode == 0x36
    then (record k { shift = true }, none)
    else if scancode == 0xAA || scancode == 0xB6
    then (record k { shift = false }, none)
    else if scancode == 0x3A
    then (record k { caps = not k.caps }, none)
    else if scancode / 0x80 % 2 == 1
    then (record k { extended = false }, none)
    else translate k scancode

abbrev enqueue_decoded : Keyboard × Option ℕ → Keyboard
enqueue_decoded (k, none) = k
enqueue_decoded (k, some key) = enqueue k key

pub keyboard_handle_irq : Keyboard → ℕ → Keyboard
keyboard_handle_irq k scancode = enqueue_decoded (decode k scancode)

-- `keyboard_poll_event` in the two steps between which an interrupt may come: it reads the oldest
-- key, and then moves the tail on.
pub poll_read : Keyboard → Option ℕ
poll_read k =
    if k.key_queue_tail == k.key_queue_head
    then none
    else some (get_or k.key_queue k.key_queue_tail 0)

pub poll_advance : Keyboard → Keyboard
poll_advance k = record k { key_queue_tail = (k.key_queue_tail + 1) % key_queue_size % 256 }

pub keyboard_poll_event : Keyboard → Option ℕ × Keyboard
unfolding poll_read poll_advance
keyboard_poll_event k = elim (poll_read k) [
  | none ↦ (none, k)
  | some key ↦ (some key, poll_advance k)
]

-- `layout` is 1 for KEYBOARD_LAYOUT_AZERTY; every other value selects qwerty.
pub keyboard_set_layout : Keyboard → ℕ → Keyboard
keyboard_set_layout k layout =
    if layout == 1 then record k { layout = azerty } else record k { layout = qwerty }
