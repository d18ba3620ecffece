-- ===== src/Padd/Bluetooth/Events.antt =====
-- What happens to pairing: the handlers of guest/padd.c that change its state, as events.
use anyconsole.Base.{Bool, List, [], ◌∷◌}
use anyconsole.Padd.Bluetooth.Texts.{Text}
use anyconsole.Padd.Bluetooth.{
  Bluetooth, Call, Pairing, Cabled, ask, on_paired, stop_pairing, toggle_pairing, forget, withdraw,
  adopt,
}
use anyconsole.Padd.Bluetooth.Agent.{authorize}
use anyconsole.Padd.Bluetooth.Objects.{
  Property, remember, read_properties, forget_peer, lose_adapter, found_adapter, bluez_up,
  bluez_down,
}

pub data Event : Type 0 where
  toggled : Event
  timed_out : Event
  replied : Bool → Event
  described : Text → List Property → Event
  adapter_came : Text → Event
  adapter_went : Text → Event
  device_went : Text → Event
  bluez_came : Event
  bluez_went : Event
  asked : Text → Event
  guide_pressed : Cabled → Event
  detached : Text → Event
  forgotten : Text → Event

-- The timer of the search, and a device that read_object finds.
unfoldable pub time_out : Bluetooth → Bluetooth
time_out b = stop_pairing (ask (Call.could_not_pair []) b)

unfoldable pub describe : Text → List Property → Bluetooth → Bluetooth
describe path xs b = let (i, c) = remember path b in read_properties xs i c

unfoldable pub step : Event → Bluetooth → Bluetooth
step toggled b = toggle_pairing b
step timed_out b = time_out b
step (replied is_error) b = on_paired is_error b
step (described path xs) b = describe path xs b
step (adapter_came path) b = found_adapter path b
step (adapter_went path) b = lose_adapter path b
step (device_went path) b = forget_peer path b
step bluez_came b = bluez_up b
step bluez_went b = bluez_down b
step (asked path) b = (authorize path b).1
step (guide_pressed c) b = adopt c b
step (detached address) b = withdraw address b
step (forgotten address) b = forget address b

unfoldable pub run : List Event → Bluetooth → Bluetooth
run [] b = b
run (e ∷ es) b = run es (step e b)

-- padd starts with nothing known.
abbrev pub start : Bluetooth
start = record {
  known = [];
  adapter = [];
  target = [];
  armed = [];
  offered = [];
  pairing = Pairing.not_pairing;
  pads = [];
  calls = [];
}
