-- ===== src/Padd/Bluetooth/Agent.antt =====
-- guest/padd.c: the agent that BlueZ asks (requested, confirm, request_pin, authorize).
use anyconsole.Base.{
  ℕ, Bool, not, ◌&&◌, ◌||◌, Option, none, some, [], ◌∷◌, ◌++◌, ltb, length, if◌then◌else◌,
}
use anyconsole.Padd.Bluetooth.Texts.{Text, is_empty, same, address_of}
use anyconsole.Padd.Bluetooth.{
  Bluetooth, Call, ask, known_at, known_address, is_trusted, is_offered, trust, withdraw,
  physical_pads_max,
}

pub data Reply : Type 0 where
  accepted pin rejected : Reply

-- The result of requested; its `address` is address_of the path.
unfoldable pub requested : Text → Bluetooth → Bool
requested path b =
    is_trusted (known_at path b) b
    || (same (address_of path) b.target || same (address_of path) b.armed)

-- A message that cannot be read is `none`.
unfoldable pub confirm : Option Text → Bluetooth → Reply
confirm none b = Reply.rejected
confirm (some path) b = if requested path b then Reply.accepted else Reply.rejected

unfoldable pub request_pin : Option Text → Bluetooth → Reply
request_pin none b = Reply.rejected
request_pin (some path) b = if requested path b then Reply.pin else Reply.rejected

unfoldable pub offer : Text → Bluetooth → Bluetooth
offer address b =
    if not (is_empty address)
      && (not (is_offered b.offered address) && ltb (length b.offered) physical_pads_max)
    then record b { offered = b.offered ++ (address ∷ []) }
    else b

abbrev pub trust_found : Option ℕ → Bluetooth → Bluetooth
trust_found none b = b
trust_found (some i) b = trust i b

-- A cabled pad that asked for it is paired: it needs no other request.
unfoldable pub disarm : Text → Bluetooth → Bluetooth
disarm address b =
    if same address b.armed
    then ask Call.controllers
        (withdraw address (record (ask (Call.paired_with address) b) { armed = [] }))
    else b

-- A device that is let in is trusted from then on; one that is not is offered to the guide button.
unfoldable pub authorize : Text → Bluetooth → Reply × Bluetooth
authorize path b =
    let address = address_of path in
    if requested path b
    then (Reply.accepted, disarm address (trust_found (known_address address b) b))
    else (Reply.rejected, offer address b)
