-- ===== src/Padd/Bluetooth.antt =====
-- guest/padd.c: pairing a Bluetooth controller (known[], target, armed, offered[]). A pointer to a peer
-- is its index in known[].
pub mod Texts
pub mod Agent
pub mod Objects
pub mod Events
pub mod Lengths
pub mod Kept
pub mod Sound
use anyconsole.Base.{
  ℕ, zero, suc, ◌+◌, Bool, true, false, not, ◌&&◌, ◌||◌, Option, none, some, List, [], ◌∷◌, ◌++◌,
  ltb, ◌==◌, length, if◌then◌else◌,
}
use anyconsole.Padd.Bluetooth.Texts.{
  Text, is_empty, text_eq, same, address_of, truncate, gamepad_icon,
}

pub data Pairing : Type 0 where
  not_pairing searching bonding : Pairing

abbrev pub is_not_pairing : Pairing → Bool
is_not_pairing not_pairing = true
is_not_pairing _ = false

abbrev pub is_searching : Pairing → Bool
is_searching searching = true
is_searching _ = false

abbrev pub is_bonding : Pairing → Bool
is_bonding bonding = true
is_bonding _ = false

-- struct bluetooth_device.
pub record Peer : Type 0 where
  pub path : Text
  pub address : Text
  pub name : Text
  pub icon : Text
  pub paired : Bool
  pub trusted : Bool
  pub seen : Bool

-- What is asked of BlueZ, the timer, the overlay and the controllers file. A method call carries the
-- path of its object.
pub data Call : Type 0 where
  start_discovery : Text → Call
  stop_discovery : Text → Call
  pair : Text → Call
  connect : Text → Call
  disconnect : Text → Call
  set_trusted : Text → Call
  remove_device : Text → Text → Call
  register_agent : Call
  request_default_agent : Call
  list_objects : Call
  pairing_timer : Bool → Call
  reannounce : Text → Call
  could_not_pair : Text → Call
  pairing_with : Text → Call
  paired_with : Text → Call
  no_adapter : Call
  controllers : Call

-- A physical pad as pairing sees it: its address, and whether it is on a USB cable.
pub record Cabled : Type 0 where
  pub address : Text
  pub usb : Bool

pub record Bluetooth : Type 0 where
  pub known : List Peer
  pub adapter : Text
  pub target : Text
  pub armed : Text
  pub offered : List Text
  pub pairing : Pairing
  pub pads : List Cabled
  pub calls : List Call

-- BLUETOOTH_DEVICES_MAX and PHYSICAL_PADS_MAX.
abbrev pub bluetooth_devices_max : ℕ
bluetooth_devices_max = 64

abbrev pub physical_pads_max : ℕ
physical_pads_max = 16

abbrev pub ask : Call → Bluetooth → Bluetooth
ask c b = record b { calls = c ∷ b.calls }

unfoldable pub find_peer : (Peer → Bool) → List Peer → ℕ → Option ℕ
find_peer test [] i = none
find_peer test (p ∷ ps) i = if test p then some i else find_peer test ps (suc i)

unfoldable pub known_at : Text → Bluetooth → Option ℕ
known_at path b = find_peer (λ p. text_eq p.path path) b.known 0

unfoldable pub known_address : Text → Bluetooth → Option ℕ
known_address address b = find_peer (λ p. same p.address address) b.known 0

abbrev pub blank : Peer
blank = record {
  path = [];
  address = [];
  name = [];
  icon = [];
  paired = false;
  trusted = false;
  seen = false;
}

-- known[i], for an index that a lookup has found.
abbrev pub peer_at : List Peer → ℕ → Peer
peer_at [] i = blank
peer_at (p ∷ ps) zero = p
peer_at (p ∷ ps) (suc i) = peer_at ps i

abbrev pub peer : Bluetooth → ℕ → Peer
peer b i = peer_at b.known i

abbrev pub set_peer : List Peer → ℕ → Peer → List Peer
set_peer [] i q = []
set_peer (p ∷ ps) zero q = q ∷ ps
set_peer (p ∷ ps) (suc i) q = p ∷ set_peer ps i q

abbrev pub put_peer : ℕ → Peer → Bluetooth → Bluetooth
put_peer i p b = record b { known = set_peer b.known i p }

unfoldable pub power_off : Option ℕ → Bluetooth → Bluetooth
power_off none b = b
power_off (some i) b = ask (Call.disconnect (peer b i).path) b

unfoldable pub trust : ℕ → Bluetooth → Bluetooth
trust i b =
    ask (Call.set_trusted (peer b i).path) (put_peer i (record (peer b i) { trusted = true }) b)

unfoldable pub stop_pairing : Bluetooth → Bluetooth
stop_pairing b =
    let stopped =
      if is_searching b.pairing && not (is_empty b.adapter)
      then ask (Call.stop_discovery b.adapter) b
      else b in
    if is_not_pairing b.pairing
    then b
    else ask Call.controllers (
        ask (Call.pairing_timer false)
          (record stopped { pairing = Pairing.not_pairing; target = [] }))

-- The reply to Pair, and whether it is an error.
unfoldable pub on_paired : Bool → Bluetooth → Bluetooth
on_paired is_error b = elim (known_address b.target b) [
  | none ↦ stop_pairing (ask (Call.could_not_pair []) b)
  | some i ↦
      let name = (peer b i).name in
      if is_error
      then stop_pairing (ask (Call.could_not_pair name) b)
      else stop_pairing
          (ask (Call.paired_with name) (ask (Call.connect (peer b i).path) (trust i b)))
]

-- The first gamepad that a search sees and that is not paired is paired with.
unfoldable pub consider : ℕ → Bluetooth → Bluetooth
consider i b =
    let p = peer b i in
    if not (is_searching b.pairing)
      || (not p.seen || (p.paired || not (text_eq p.icon gamepad_icon)))
    then b
    else ask (Call.pair p.path) (record (ask (Call.stop_discovery b.adapter) b) {
      pairing = Pairing.bonding;
      target = p.address;
    })

unfoldable pub unsee : List Peer → List Peer
unsee [] = []
unsee (p ∷ ps) = record p { seen = false } ∷ unsee ps

unfoldable pub start_pairing : Bluetooth → Bluetooth
start_pairing b =
    if is_empty b.adapter
    then ask Call.no_adapter b
    else ask Call.controllers (
        ask (Call.pairing_timer true) (
          ask (Call.start_discovery b.adapter)
            (record b { pairing = Pairing.searching; known = unsee b.known })))

-- The `pair` command of the settings.
unfoldable pub toggle_pairing : Bluetooth → Bluetooth
toggle_pairing b = if is_not_pairing b.pairing then start_pairing b else stop_pairing b

unfoldable pub forget : Text → Bluetooth → Bluetooth
forget address b = elim (known_address address b) [
  | none ↦ b
  | some i ↦ if is_empty b.adapter then b else ask (Call.remove_device b.adapter (peer b i).path) b
]

unfoldable pub offered_index : List Text → Text → ℕ → Option ℕ
offered_index [] address i = none
offered_index (o ∷ os) address i =
    if same o address then some i else offered_index os address (suc i)

abbrev pub is_offered : List Text → Text → Bool
is_offered os address = elim (offered_index os address 0) [ none ↦ false | some i ↦ true ]

unfoldable pub all_but_last : List Text → List Text
all_but_last [] = []
all_but_last (o ∷ []) = []
all_but_last (o ∷ p ∷ os) = o ∷ all_but_last (p ∷ os)

unfoldable pub last_of : Text → List Text → Text
last_of o [] = o
last_of o (p ∷ os) = last_of p os

-- offered[index] = offered[--offered_count]
unfoldable pub remove_offer : List Text → ℕ → List Text
unfolding all_but_last last_of
remove_offer [] i = []
remove_offer (o ∷ []) i = []
remove_offer (o ∷ p ∷ os) zero = last_of p os ∷ all_but_last (p ∷ os)
remove_offer (o ∷ p ∷ os) (suc i) = o ∷ remove_offer (p ∷ os) i

unfoldable pub withdraw : Text → Bluetooth → Bluetooth
withdraw address b = elim (offered_index b.offered address 0) [
  | none ↦ b
  | some i ↦ record b { offered = remove_offer b.offered i }
]

abbrev pub is_trusted : Option ℕ → Bluetooth → Bool
is_trusted none b = false
is_trusted (some i) b = (peer b i).trusted

-- The guide button of a cabled pad whose request to connect was rejected before.
unfoldable pub adopt : Cabled → Bluetooth → Bluetooth
adopt c b =
    if not c.usb
      || (is_empty b.adapter
          || (is_trusted (known_address c.address b) b || not (is_offered b.offered c.address)))
    then b
    else ask (Call.pairing_with c.address)
        (ask (Call.reannounce c.address) (record b { armed = c.address }))
