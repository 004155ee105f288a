-- ===== src/Key.antt =====
-- The key codes of include/kernel.h beyond the characters.
use flare_os.Prelude.{ℕ}

abbrev pub none : ℕ
none = 0

abbrev pub enter : ℕ
enter = 10

abbrev pub backspace : ℕ
backspace = 8

abbrev pub tab : ℕ
tab = 9

abbrev pub esc : ℕ
esc = 0x100

abbrev pub f1 : ℕ
f1 = 0x101

abbrev pub f2 : ℕ
f2 = 0x102

abbrev pub f3 : ℕ
f3 = 0x103

abbrev pub f4 : ℕ
f4 = 0x104

abbrev pub f10 : ℕ
f10 = 0x105

abbrev pub home : ℕ
home = 0x106

abbrev pub end : ℕ
end = 0x107

abbrev pub pgup : ℕ
pgup = 0x108

abbrev pub pgdn : ℕ
pgdn = 0x109

abbrev pub up : ℕ
up = 0x10a

abbrev pub down : ℕ
down = 0x10b

abbrev pub left : ℕ
left = 0x10c

abbrev pub right : ℕ
right = 0x10d

abbrev pub insert : ℕ
insert = 0x10e

abbrev pub del : ℕ
del = 0x10f
