-- ===== src/Padd/Effects.antt =====
-- guest/padd.c: the rumble effects that a game stores and plays (store_effect, rumble, read_feedback).
pub mod Stored
pub mod Rumbled
mod Tests
use anyconsole.Base.{
  ℕ, zero, suc, ◌*◌, ◌/◌, ◌%◌, ◌^◌, Bool, true, false, Option, none, some, List, [], ◌∷◌, length,
  get_elem?, leb, ◌==◌, if◌then◌else◌,
}
use anyconsole.Padd.Floats.{Floats}
use anyconsole.Padd.State.{Out, Effect, Pad, Outputs, Padd, View, same_seat, update, say, views}

abbrev pub gain_max : ℕ
gain_max = 65535

abbrev pub silent : Effect
silent = record { strong = 0; weak = 0; length = 0 }

-- effects[seat][id] = *effect; the cells that the table grows by are zeroed.
unfoldable pub store : List Effect → ℕ → Effect → List Effect
store [] zero e = e ∷ []
store [] (suc id) e = silent ∷ store [] id e
store (x ∷ xs) zero e = e ∷ xs
store (x ∷ xs) (suc id) e = x ∷ store xs id e

-- The flag is whether realloc finds memory: the table only has to grow for a new id.
unfoldable pub store_effect : Bool → ℕ → ℕ → Effect → Outputs → Outputs
store_effect has_memory seat id e O =
    let stored = record O { effects = update O.effects seat (store (O.effects seat) id e) } in
    if leb (length (O.effects seat)) id then (if has_memory then stored else O) else stored

-- A magnitude scaled by the gain of the seat, in a Uint32, and kept in a Uint16; a count of 0 stops the
-- effect. The event's values, which are signed, are read as the 32 bits that they have.
unfoldable pub scaled : ℕ → ℕ → ℕ → ℕ
scaled count gain magnitude =
    if count == 0 then 0 else ((magnitude * gain) % 2 ^ 32 / gain_max) % 2 ^ 16

-- The loop of rumble over the pads of the seat.
unfoldable pub rumble_pads : (ℕ → View) → ℕ → ℕ → ℕ → ℕ → List Pad → Outputs → Outputs
rumble_pads views seat strong weak span [] O = O
rumble_pads views seat strong weak span (p ∷ ps) O = rumble_pads views seat strong weak span ps (
    if same_seat (views p.input).pad seat
    then say (Out.rumble p.instance_id strong weak span) O
    else O)

unfoldable pub rumble : (ℕ → View) → List Pad → ℕ → ℕ → ℕ → Outputs → Outputs
rumble views pads seat id count O = elim (get_elem? (O.effects seat) id) [
  | none ↦ O
  | some e ↦
      rumble_pads views seat (scaled count (O.gain seat) e.strong)
        (scaled count (O.gain seat) e.weak) e.length pads O
]

-- What a game asks of its virtual pad. Erasing an effect changes nothing here.
pub data Feedback : Type 0 where
  upload : Bool → ℕ → Effect → Feedback
  erase : ℕ → Feedback
  set_gain : ℕ → Feedback
  play : ℕ → ℕ → Feedback

unfoldable pub read_feedback : (ℕ → View) → List Pad → ℕ → Feedback → Outputs → Outputs
read_feedback views pads seat (upload has_memory id e) O = store_effect has_memory seat id e O
read_feedback views pads seat (erase id) O = O
read_feedback views pads seat (set_gain g) O = record O { gain = update O.gain seat g }
read_feedback views pads seat (play id count) O = rumble views pads seat id count O
