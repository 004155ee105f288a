-- ===== src/Keyboard/Keymaps.antt =====
-- The keymaps of kernel/drivers/keyboard.c, as the scancodes that an initialiser names with their
-- keys; every other entry of the array is KEY_NONE.
use flare_os.Prelude.{ℕ, List, [], ◌∷◌}
use flare_os.Key

-- The US layout.
abbrev pub qwerty_keymap : List (ℕ × ℕ)
qwerty_keymap =
    (0x02, b'1')
    ∷ (0x03, b'2')
    ∷ (0x04, b'3')
    ∷ (0x05, b'4')
    ∷ (0x06, b'5')
    ∷ (0x07, b'6')
    ∷ (0x08, b'7')
    ∷ (0x09, b'8')
    ∷ (0x0a, b'9')
    ∷ (0x0b, b'0')
    ∷ (0x0c, b'-')
    ∷ (0x0d, b'=')
    ∷ (0x0e, Key.backspace)
    ∷ (0x0f, Key.tab)
    ∷ (0x01, Key.esc)
    ∷ (0x10, b'q')
    ∷ (0x11, b'w')
    ∷ (0x12, b'e')
    ∷ (0x13, b'r')
    ∷ (0x14, b't')
    ∷ (0x15, b'y')
    ∷ (0x16, b'u')
    ∷ (0x17, b'i')
    ∷ (0x18, b'o')
    ∷ (0x19, b'p')
    ∷ (0x1a, b'[')
    ∷ (0x1b, b']')
    ∷ (0x1c, Key.enter)
    ∷ (0x1e, b'a')
    ∷ (0x1f, b's')
    ∷ (0x20, b'd')
    ∷ (0x21, b'f')
    ∷ (0x22, b'g')
    ∷ (0x23, b'h')
    ∷ (0x24, b'j')
    ∷ (0x25, b'k')
    ∷ (0x26, b'l')
    ∷ (0x27, b';')
    ∷ (0x28, 0x27)
    ∷ (0x29, 0x60)
    ∷ (0x2b, 0x5c)
    ∷ (0x2c, b'z')
    ∷ (0x2d, b'x')
    ∷ (0x2e, b'c')
    ∷ (0x2f, b'v')
    ∷ (0x30, b'b')
    ∷ (0x31, b'n')
    ∷ (0x32, b'm')
    ∷ (0x33, b',')
    ∷ (0x34, b'.')
    ∷ (0x35, b'/')
    ∷ (0x39, b' ')
    ∷ (0x3b, Key.f1)
    ∷ (0x3c, Key.f2)
    ∷ (0x3d, Key.f3)
    ∷ (0x3e, Key.f4)
    ∷ (0x44, Key.f10)
    ∷ []

-- The French layout.
abbrev pub azerty_keymap : List (ℕ × ℕ)
azerty_keymap =
    (0x02, b'1')
    ∷ (0x03, b'2')
    ∷ (0x04, b'3')
    ∷ (0x05, b'4')
    ∷ (0x06, b'5')
    ∷ (0x07, b'6')
    ∷ (0x08, b'7')
    ∷ (0x09, b'8')
    ∷ (0x0a, b'9')
    ∷ (0x0b, b'0')
    ∷ (0x0c, b'-')
    ∷ (0x0d, b'=')
    ∷ (0x0e, Key.backspace)
    ∷ (0x0f, Key.tab)
    ∷ (0x01, Key.esc)
    ∷ (0x10, b'a')
    ∷ (0x11, b'z')
    ∷ (0x12, b'e')
    ∷ (0x13, b'r')
    ∷ (0x14, b't')
    ∷ (0x15, b'y')
    ∷ (0x16, b'u')
    ∷ (0x17, b'i')
    ∷ (0x18, b'o')
    ∷ (0x19, b'p')
    ∷ (0x1a, b'[')
    ∷ (0x1b, b']')
    ∷ (0x1c, Key.enter)
    ∷ (0x1e, b'q')
    ∷ (0x1f, b's')
    ∷ (0x20, b'd')
    ∷ (0x21, b'f')
    ∷ (0x22, b'g')
    ∷ (0x23, b'h')
    ∷ (0x24, b'j')
    ∷ (0x25, b'k')
    ∷ (0x26, b'l')
    ∷ (0x27, b'm')
    ∷ (0x28, 0x27)
    ∷ (0x29, 0x60)
    ∷ (0x2b, 0x5c)
    ∷ (0x2c, b'w')
    ∷ (0x2d, b'x')
    ∷ (0x2e, b'c')
    ∷ (0x2f, b'v')
    ∷ (0x30, b'b')
    ∷ (0x31, b'n')
    ∷ (0x32, b',')
    ∷ (0x33, b';')
    ∷ (0x34, b'.')
    ∷ (0x35, b'/')
    ∷ (0x39, b' ')
    ∷ (0x3b, Key.f1)
    ∷ (0x3c, Key.f2)
    ∷ (0x3d, Key.f3)
    ∷ (0x3e, Key.f4)
    ∷ (0x44, Key.f10)
    ∷ []

-- Scancodes behind the prefix 0xE0.
abbrev pub ext_keymap : List (ℕ × ℕ)
ext_keymap =
    (0x47, Key.home)
    ∷ (0x48, Key.up)
    ∷ (0x49, Key.pgup)
    ∷ (0x4b, Key.left)
    ∷ (0x4d, Key.right)
    ∷ (0x4f, Key.end)
    ∷ (0x50, Key.down)
    ∷ (0x51, Key.pgdn)
    ∷ (0x52, Key.insert)
    ∷ (0x53, Key.del)
    ∷ []
