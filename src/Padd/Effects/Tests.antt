-- ===== src/Padd/Effects/Tests.antt =====
-- Examples of rumble: a strong effect at half the gain, on a seat with two of three pads.
use mathlib.Core.List.{map}
use anyconsole.Base.{
  ℕ, ◌≡◌, ◌≤◌, refl, arith, true, false, some, List, [], ◌∷◌, ◌==◌, if◌then◌else◌,
}
use anyconsole.Base.Int.{pos}
use anyconsole.Padd.Modes.{Mode}
use anyconsole.Padd.State.{Out, Effect, Pad, Outputs, View}
use anyconsole.Padd.Effects.{rumble, rumble_pads, scaled}
use anyconsole.Padd.Effects.Rumbled.{share, pads_on, motors, with_told, rumble-share}

abbrev loud : Effect
loud = record { strong = 65535; weak = 20001; length = 300 }

abbrev half_gain : Outputs
half_gain = record {
  is_plugged = λ _. true;
  emitted = λ _ _. pos 0;
  gain = λ _. 32768;
  effects = λ _. loud ∷ [];
  blowing = false;
  blow_sent = false;
  blow_busy = false;
  can_spawn = true;
  out = [];
}

-- The second device plays on another seat.
abbrev seats : ℕ → View
seats j = record {
  id = j;
  pad = some (if j == 1 then 1 else 0);
  mode = Mode.analog;
  raw = λ _. pos 0;
}

abbrev three : List Pad
three =
    record { instance_id = 10; input = 0; active = 0 }
    ∷ record { instance_id = 11; input = 1; active = 0 }
    ∷ record { instance_id = 12; input = 2; active = 0 }
    ∷ []

rumble-share_example :
    (rumble seats three 0 0 1 half_gain
      ≡ with_told
          (map (motors (share 1 32768 65535) (share 1 32768 20001) 300) (pads_on seats 0 three))
          half_gain)
    × (share 1 32768 65535 ≤ 65535)
    × (share 1 32768 20001 ≤ 20001)
rumble-share_example =
    rumble-share seats three 0 0 1 half_gain loud refl (omega arith) (omega arith) (omega arith)

rumble_test :
    (rumble seats three 0 0 1 half_gain).out
    ≡ Out.rumble 12 32768 10000 300 ∷ Out.rumble 10 32768 10000 300 ∷ []
unfolding rumble rumble_pads scaled
rumble_test = refl
