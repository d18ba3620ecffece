-- ===== src/Padd/Codes/Ev.antt =====
-- EV_* of linux/input-event-codes.h, as guest/padd.c uses them.
use Prim.Native.Nat.{ℕ}

abbrev pub key : ℕ
key = 1

abbrev pub rel : ℕ
rel = 2

abbrev pub abs : ℕ
abs = 3
