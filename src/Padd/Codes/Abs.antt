-- ===== src/Padd/Codes/Abs.antt =====
-- ABS_* of linux/input-event-codes.h, as guest/padd.c uses them.
use Prim.Native.Nat.{ℕ}

abbrev pub x : ℕ
x = 0

abbrev pub y : ℕ
y = 1

abbrev pub z : ℕ
z = 2

abbrev pub rx : ℕ
rx = 3

abbrev pub ry : ℕ
ry = 4

abbrev pub rz : ℕ
rz = 5

abbrev pub hat0x : ℕ
hat0x = 16

abbrev pub hat0y : ℕ
hat0y = 17
