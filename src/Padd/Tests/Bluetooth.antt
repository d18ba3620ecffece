-- ===== src/Padd/Tests/Bluetooth.antt =====
-- Tests and examples of pairing.
use anyconsole.Base.{◌≡◌, refl, true, List, [], ◌∷◌}
use anyconsole.Padd.Bluetooth.Texts.{
  Text, gamepad_icon, text_eq, case_eq, same, address_of, truncate, replace, from_last, after,
}
use anyconsole.Padd.Bluetooth.{
  Pairing, known_at, find_peer, start_pairing, toggle_pairing, unsee, consider, offered_index,
}
use anyconsole.Padd.Bluetooth.Agent.{Reply, requested, offer, authorize}
use anyconsole.Padd.Bluetooth.Objects.{
  Property, remember, read_properties, read_each, read_property, found_adapter, reannounce_cabled,
}
use anyconsole.Padd.Bluetooth.Events.{Event, describe, step, run, start}
use anyconsole.Padd.Bluetooth.Kept.{IsSound}
use anyconsole.Padd.Bluetooth.Sound.{run-IsSound, authorize-stranger}

-- "/d/dev_4A_5b"
abbrev path : Text
path = 47 ∷ 100 ∷ 47 ∷ 100 ∷ 101 ∷ 118 ∷ 95 ∷ 52 ∷ 65 ∷ 95 ∷ 53 ∷ 98 ∷ []

-- "4A:5b"
address_of_path : address_of path ≡ 52 ∷ 65 ∷ 58 ∷ 53 ∷ 98 ∷ []
unfolding address_of replace truncate from_last after
address_of_path = refl

same_case : same (52 ∷ 65 ∷ []) (52 ∷ 97 ∷ []) ≡ true
unfolding same case_eq
same_case = refl

-- An adapter comes, a search starts, and a controller is seen.
abbrev found : List Event
found =
    Event.adapter_came (104 ∷ [])
    ∷ Event.toggled
    ∷ Event.described path (Property.icon gamepad_icon ∷ Property.rssi ∷ [])
    ∷ []

run-found : (run found start).pairing ≡ Pairing.bonding
unfolding run step toggle_pairing start_pairing found_adapter reannounce_cabled unsee describe
    remember read_properties read_each read_property consider known_at find_peer text_eq truncate
run-found = refl

run-IsSound_example : IsSound (run found start)
run-IsSound_example = run-IsSound found

authorize-stranger_example :
    authorize path (run (Event.asked path ∷ []) start)
    ≡ (Reply.rejected, offer (address_of path) (run (Event.asked path ∷ []) start))
unfolding run step authorize requested offer known_at find_peer same case_eq address_of replace
    truncate from_last after offered_index
authorize-stranger_example = authorize-stranger (Event.asked path ∷ []) path refl refl refl
