-- ===== src/Padd/Bluetooth/Objects.antt =====
-- guest/padd.c: what BlueZ says about its objects (remember, read_properties, on_interfaces_removed,
-- forget_bluez, bluez_up, bluez_down).
use anyconsole.Base.{
  ℕ, zero, suc, Bool, true, Option, none, some, List, [], ◌∷◌, ◌++◌, ◌==◌, length, if◌then◌else◌,
}
use anyconsole.Padd.Bluetooth.Texts.{Text, is_empty, text_eq, address_of, truncate}
use anyconsole.Padd.Bluetooth.{
  Peer, Bluetooth, Call, Cabled, blank, peer, put_peer, ask, known_at, consider, stop_pairing,
  bluetooth_devices_max,
}

-- A property of org.bluez.Device1 and its value.
pub data Property : Type 0 where
  alias : Text → Property
  icon : Text → Property
  paired : Bool → Property
  trusted : Bool → Property
  rssi : Property
  other : Property

-- The index of the peer with the path, a new one if there is none and the table has room.
unfoldable pub remember : Text → Bluetooth → Option ℕ × Bluetooth
remember path b =
    let fresh = record blank { path = truncate 4095 path; address = address_of path } in
    elim (known_at path b) [
      | some i ↦ (some i, b)
      | none ↦
          if length b.known == bluetooth_devices_max
          then (none, b)
          else (some (length b.known), record b { known = b.known ++ (fresh ∷ []) })
    ]

unfoldable pub read_property : Property → Peer → Peer
read_property (alias t) p = record p { name = if text_eq p.name t then p.name else truncate 255 t }
read_property (icon t) p = record p { icon = if text_eq p.icon t then p.icon else truncate 255 t }
read_property (paired v) p = record p { paired = v }
read_property (trusted v) p = record p { trusted = v }
read_property rssi p = record p { seen = true }
read_property other p = p

unfoldable pub read_each : List Property → Peer → Peer
read_each [] p = p
read_each (x ∷ xs) p = read_each xs (read_property x p)

unfoldable pub read_properties : List Property → Option ℕ → Bluetooth → Bluetooth
read_properties xs none b = b
read_properties xs (some i) b = consider i (put_peer i (read_each xs (peer b i)) b)

unfoldable pub drop_last : List Peer → List Peer
drop_last [] = []
drop_last (p ∷ []) = []
drop_last (p ∷ q ∷ ps) = p ∷ drop_last (q ∷ ps)

unfoldable pub last_peer : Peer → List Peer → Peer
last_peer p [] = p
last_peer p (q ∷ ps) = last_peer q ps

-- *device = known[--known_count]
unfoldable pub remove_peer : List Peer → ℕ → List Peer
unfolding drop_last last_peer
remove_peer [] i = []
remove_peer (p ∷ []) i = []
remove_peer (p ∷ q ∷ ps) zero = last_peer q ps ∷ drop_last (q ∷ ps)
remove_peer (p ∷ q ∷ ps) (suc i) = p ∷ remove_peer (q ∷ ps) i

unfoldable pub forget_peer : Text → Bluetooth → Bluetooth
forget_peer path b = elim (known_at path b) [
  | none ↦ b
  | some i ↦ record b { known = remove_peer b.known i }
]

unfoldable pub lose_adapter : Text → Bluetooth → Bluetooth
lose_adapter path b = if text_eq path b.adapter then stop_pairing (record b { adapter = [] }) else b

-- The cabled pads ask again for a connection.
unfoldable pub reannounce_cabled : List Cabled → Bluetooth → Bluetooth
reannounce_cabled [] b = b
reannounce_cabled (c ∷ cs) b =
    reannounce_cabled cs (if c.usb then ask (Call.reannounce c.address) b else b)

unfoldable pub found_adapter : Text → Bluetooth → Bluetooth
found_adapter path b =
    if is_empty b.adapter
    then reannounce_cabled b.pads (record b { adapter = truncate 4095 path })
    else b

unfoldable pub forget_bluez : Bluetooth → Bluetooth
forget_bluez b = record (stop_pairing b) { known = []; adapter = [] }

unfoldable pub bluez_up : Bluetooth → Bluetooth
bluez_up b =
    ask Call.list_objects
      (ask Call.request_default_agent (ask Call.register_agent (forget_bluez b)))

unfoldable pub bluez_down : Bluetooth → Bluetooth
bluez_down b = ask Call.controllers (forget_bluez b)
