-- ===== src/Padd/Codes/Key.antt =====
-- KEY_* of linux/input-event-codes.h, as guest/padd.c uses them.
use Prim.Native.Nat.{ℕ}

abbrev pub esc : ℕ
esc = 1

abbrev pub backspace : ℕ
backspace = 14

abbrev pub tab : ℕ
tab = 15

abbrev pub q : ℕ
q = 16

abbrev pub w : ℕ
w = 17

abbrev pub enter : ℕ
enter = 28

abbrev pub a : ℕ
a = 30

abbrev pub s : ℕ
s = 31

abbrev pub z : ℕ
z = 44

abbrev pub x : ℕ
x = 45

abbrev pub rightshift : ℕ
rightshift = 54

abbrev pub space : ℕ
space = 57

abbrev pub kpenter : ℕ
kpenter = 96

abbrev pub up : ℕ
up = 103

abbrev pub pageup : ℕ
pageup = 104

abbrev pub left : ℕ
left = 105

abbrev pub right : ℕ
right = 106

abbrev pub down : ℕ
down = 108

abbrev pub pagedown : ℕ
pagedown = 109

abbrev pub leftmeta : ℕ
leftmeta = 125

abbrev pub rightmeta : ℕ
rightmeta = 126
