-- ===== src/Padd/Codes/Rel.antt =====
-- REL_* of linux/input-event-codes.h, as guest/padd.c uses them.
use Prim.Native.Nat.{ℕ}

abbrev pub x : ℕ
x = 0

abbrev pub y : ℕ
y = 1

abbrev pub wheel : ℕ
wheel = 8
