-- ===== src/Padd/Bluetooth/Texts.antt =====
-- guest/padd.c: the strings of BlueZ, as lists of bytes (same, replace, address_of).
use anyconsole.Base.{
  ℕ, zero, suc, ◌+◌, Bool, true, false, not, ◌&&◌, Option, none, some, List, [], ◌∷◌, ◌==◌, leb,
  if◌then◌else◌,
}

abbrev pub Text : Type 0
Text = List ℕ

abbrev pub is_empty : Text → Bool
is_empty [] = true
is_empty (c ∷ t) = false

-- !strcmp
unfoldable pub text_eq : Text → Text → Bool
text_eq [] [] = true
text_eq [] (d ∷ u) = false
text_eq (c ∷ t) [] = false
text_eq (c ∷ t) (d ∷ u) = c == d && text_eq t u

abbrev pub lower : ℕ → ℕ
lower c = if leb 65 c && leb c 90 then c + 32 else c

-- !strcasecmp
unfoldable pub case_eq : Text → Text → Bool
case_eq [] [] = true
case_eq [] (d ∷ u) = false
case_eq (c ∷ t) [] = false
case_eq (c ∷ t) (d ∷ u) = lower c == lower d && case_eq t u

unfoldable pub same : Text → Text → Bool
same address other = not (is_empty address) && case_eq address other

-- What snprintf keeps of a text in a buffer of n + 1 bytes.
unfoldable pub truncate : ℕ → Text → Text
truncate zero t = []
truncate (suc n) [] = []
truncate (suc n) (c ∷ t) = c ∷ truncate n t

-- strrchr: the rest of the text from the last such byte on.
unfoldable pub from_last : ℕ → Text → Option Text
from_last c [] = none
from_last c (d ∷ t) = elim (from_last c t) [
  | some u ↦ some u
  | none ↦ if d == c then some (d ∷ t) else none
]

-- What follows a prefix.
unfoldable pub after : Text → Text → Option Text
after [] t = some t
after (p ∷ ps) [] = none
after (p ∷ ps) (c ∷ t) = if p == c then after ps t else none

unfoldable pub replace : ℕ → ℕ → Text → Text
replace from to [] = []
replace from to (c ∷ t) = (if c == from then to else c) ∷ replace from to t

-- "/dev_"
abbrev pub device_path_prefix : Text
device_path_prefix = 47 ∷ 100 ∷ 101 ∷ 118 ∷ 95 ∷ []

-- "input-gaming"
abbrev pub gamepad_icon : Text
gamepad_icon = 105 ∷ 110 ∷ 112 ∷ 117 ∷ 116 ∷ 45 ∷ 103 ∷ 97 ∷ 109 ∷ 105 ∷ 110 ∷ 103 ∷ []

abbrev suffix_or_empty : Option Text → Text
suffix_or_empty none = []
suffix_or_empty (some t) = t

abbrev device_part : Option Text → Text
device_part none = []
device_part (some t) = suffix_or_empty (after device_path_prefix t)

-- ADDRESS_SIZE is 18: the 17 bytes of an address, and the end.
unfoldable pub address_of : Text → Text
address_of path = replace 95 58 (truncate 17 (device_part (from_last 47 path)))
