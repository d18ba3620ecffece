-- ===== src/Padd/Codes/Btn.antt =====
-- BTN_* of linux/input-event-codes.h, as guest/padd.c uses them.
use Prim.Native.Nat.{ℕ}

abbrev pub left : ℕ
left = 0x110

abbrev pub right : ℕ
right = 0x111

abbrev pub middle : ℕ
middle = 0x112

abbrev pub south : ℕ
south = 0x130

abbrev pub east : ℕ
east = 0x131

abbrev pub north : ℕ
north = 0x133

abbrev pub west : ℕ
west = 0x134

abbrev pub tl : ℕ
tl = 0x136

abbrev pub tr : ℕ
tr = 0x137

abbrev pub tl2 : ℕ
tl2 = 0x138

abbrev pub tr2 : ℕ
tr2 = 0x139

abbrev pub select : ℕ
select = 0x13a

abbrev pub start : ℕ
start = 0x13b

abbrev pub mode : ℕ
mode = 0x13c

abbrev pub thumbl : ℕ
thumbl = 0x13d

abbrev pub thumbr : ℕ
thumbr = 0x13e

abbrev pub trigger_happy1 : ℕ
trigger_happy1 = 0x2c0

abbrev pub trigger_happy2 : ℕ
trigger_happy2 = 0x2c1

abbrev pub trigger_happy3 : ℕ
trigger_happy3 = 0x2c2

abbrev pub trigger_happy4 : ℕ
trigger_happy4 = 0x2c3
