-- ===== src/Padd/Bluetooth/Sound.antt =====
-- What holds of pairing whatever happens: no target is left over, and the tables do not overflow.
use anyconsole.Base.{
  ℕ, ◌≡◌, refl, Bool, true, false, ◌&&◌, arith, ◌==◌, ltb, Option, none, some, Bool-cases,
  Option-cases, inl, inr, List, [], ◌∷◌, ◌++◌, length, length-append,
}
use anyconsole.Padd.Bluetooth.Texts.{Text, same, case_eq, address_of}
use anyconsole.Padd.Bluetooth.{
  Peer, Bluetooth, Cabled, is_bonding, offered_index, forget, withdraw, adopt, known_at,
  known_address, is_trusted, physical_pads_max, bluetooth_devices_max,
}
use anyconsole.Padd.Bluetooth.Agent.{Reply, requested, authorize, offer, disarm, trust_found}
use anyconsole.Padd.Bluetooth.Objects.{
  Property, remember, read_properties, forget_peer, lose_adapter, reannounce_cabled, found_adapter,
  forget_bluez, bluez_up, bluez_down,
}
use anyconsole.Padd.Bluetooth.Events.{Event, time_out, describe, step, run, start}
use anyconsole.Padd.Bluetooth.Lengths.{length-remove_offer, length-remove_peer}
use anyconsole.Padd.Bluetooth.Kept.{
  IsSound, ask-IsSound, if-IsSound, put_peer-IsSound, trust-IsSound, stop_pairing-IsSound,
  on_paired-IsSound, consider-IsSound, toggle_pairing-IsSound,
}

withdraw-IsSound : (address : Text) (b : Bluetooth) → IsSound b → IsSound (withdraw address b)
unfolding withdraw
withdraw-IsSound address b h = elim (Option-cases (offered_index b.offered address 0)) [
  | inl e ↦ rw (e, withdraw) h
  | inr (i, e) ↦
      rw (e, withdraw)
        (record {
          no_target = h.no_target;
          offers = omega (arith, h.offers, length-remove_offer b.offered i);
          peers = h.peers;
        })
]

forget-IsSound : (address : Text) (b : Bluetooth) → IsSound b → IsSound (forget address b)
unfolding forget
forget-IsSound address b h = elim (Option-cases (known_address address b)) [
  | inl e ↦ rw (e, forget) h
  | inr (i, e) ↦ rw (e, forget) (if-IsSound _ h (ask-IsSound _ b h))
]

adopt-IsSound : (c : Cabled) (b : Bluetooth) → IsSound b → IsSound (adopt c b)
unfolding adopt
adopt-IsSound c b h =
    if-IsSound _ h (record { no_target = h.no_target; offers = h.offers; peers = h.peers })

trust_found-IsSound : (i : Option ℕ) (b : Bluetooth) → IsSound b → IsSound (trust_found i b)
trust_found-IsSound none b h = h
trust_found-IsSound (some i) b h = trust-IsSound i b h

disarm-IsSound : (address : Text) (b : Bluetooth) → IsSound b → IsSound (disarm address b)
unfolding disarm
disarm-IsSound address b h =
    if-IsSound _
      (ask-IsSound _ _ (
        withdraw-IsSound address _
          (record { no_target = h.no_target; offers = h.offers; peers = h.peers })))
      h

offer-IsSound : (address : Text) (b : Bluetooth) → IsSound b → IsSound (offer address b)
unfolding offer
offer-IsSound address b h = elim (Bool-cases (ltb (length b.offered) physical_pads_max)) [
  | inl e ↦
      if-IsSound _
        (record {
          no_target = h.no_target;
          offers = ground (arith, length-append b.offered (address ∷ []));
          peers = h.peers;
        })
        h
  | inr e ↦ rw (e, never, never) h
]
  where
    never : (t : Bool) → (t && false) ≡ false
    never true = refl
    never false = refl

authorize-IsSound : (path : Text) (b : Bluetooth) → IsSound b → IsSound (authorize path b).1
unfolding authorize
authorize-IsSound path b h = elim (Bool-cases (requested path b)) [
  | inl e ↦ rw e (disarm-IsSound _ _ (trust_found-IsSound _ b h))
  | inr e ↦ rw e (offer-IsSound _ b h)
]

add_peer-IsSound :
    (p : Peer) (b : Bluetooth)
    → (length b.known == bluetooth_devices_max) ≡ false
    → IsSound b
    → IsSound (record b { known = b.known ++ (p ∷ []) })
add_peer-IsSound p b room h = record {
  no_target = h.no_target;
  offers = h.offers;
  peers = ground (arith, h.peers, length-append b.known (p ∷ []));
}

remember-IsSound : (path : Text) (b : Bluetooth) → IsSound b → IsSound (remember path b).1
unfolding remember
remember-IsSound path b h = elim (Option-cases (known_at path b)) [
  | inl e ↦
      rw (e, remember)
        (elim (Bool-cases (length b.known == bluetooth_devices_max)) [
          | inl full ↦ rw full h
          | inr room ↦ rw room (add_peer-IsSound _ b room h)
        ])
  | inr (i, e) ↦ rw (e, remember) h
]

read_properties-IsSound :
    (xs : List Property) (i : Option ℕ) (c : Bluetooth)
    → IsSound c
    → IsSound (read_properties xs i c)
unfolding read_properties
read_properties-IsSound xs none c k = k
read_properties-IsSound xs (some i) c k = consider-IsSound i _ (put_peer-IsSound i _ c k)

describe-IsSound :
    (path : Text) (xs : List Property) (b : Bluetooth) → IsSound b → IsSound (describe path xs b)
unfolding describe
describe-IsSound path xs b h =
    read_properties-IsSound xs (remember path b).0 (remember path b).1 (remember-IsSound path b h)

forget_peer-IsSound : (path : Text) (b : Bluetooth) → IsSound b → IsSound (forget_peer path b)
unfolding forget_peer
forget_peer-IsSound path b h = elim (Option-cases (known_at path b)) [
  | inl e ↦ rw (e, forget_peer) h
  | inr (i, e) ↦
      rw (e, forget_peer)
        (record {
          no_target = h.no_target;
          offers = h.offers;
          peers = omega (arith, h.peers, length-remove_peer b.known i);
        })
]

adapter-IsSound : (path : Text) (b : Bluetooth) → IsSound b → IsSound (record b { adapter = path })
adapter-IsSound path b h = record { no_target = h.no_target; offers = h.offers; peers = h.peers }

lose_adapter-IsSound : (path : Text) (b : Bluetooth) → IsSound b → IsSound (lose_adapter path b)
unfolding lose_adapter
lose_adapter-IsSound path b h = if-IsSound _ (stop_pairing-IsSound _ (adapter-IsSound [] b h)) h

reannounce_cabled-IsSound :
    (cs : List Cabled) (b : Bluetooth) → IsSound b → IsSound (reannounce_cabled cs b)
unfolding reannounce_cabled
reannounce_cabled-IsSound [] b h = h
reannounce_cabled-IsSound (c ∷ cs) b h =
    reannounce_cabled-IsSound cs _ (if-IsSound c.usb (ask-IsSound _ b h) h)

found_adapter-IsSound : (path : Text) (b : Bluetooth) → IsSound b → IsSound (found_adapter path b)
unfolding found_adapter
found_adapter-IsSound path b h =
    if-IsSound _ (reannounce_cabled-IsSound b.pads _ (adapter-IsSound _ b h)) h

forget_bluez-IsSound : (b : Bluetooth) → IsSound b → IsSound (forget_bluez b)
unfolding forget_bluez
forget_bluez-IsSound b h =
    let k = stop_pairing-IsSound b h in
    record { no_target = k.no_target; offers = k.offers; peers = omega arith }

step-IsSound : (e : Event) (b : Bluetooth) → IsSound b → IsSound (step e b)
unfolding step time_out bluez_up bluez_down
step-IsSound Event.toggled b h = toggle_pairing-IsSound b h
step-IsSound Event.timed_out b h = stop_pairing-IsSound _ (ask-IsSound _ b h)
step-IsSound (Event.replied e) b h = on_paired-IsSound e b h
step-IsSound (Event.described path xs) b h = describe-IsSound path xs b h
step-IsSound (Event.adapter_came path) b h = found_adapter-IsSound path b h
step-IsSound (Event.adapter_went path) b h = lose_adapter-IsSound path b h
step-IsSound (Event.device_went path) b h = forget_peer-IsSound path b h
step-IsSound Event.bluez_came b h =
    ask-IsSound _ _ (ask-IsSound _ _ (ask-IsSound _ _ (forget_bluez-IsSound b h)))
step-IsSound Event.bluez_went b h = ask-IsSound _ _ (forget_bluez-IsSound b h)
step-IsSound (Event.asked path) b h = authorize-IsSound path b h
step-IsSound (Event.guide_pressed c) b h = adopt-IsSound c b h
step-IsSound (Event.detached address) b h = withdraw-IsSound address b h
step-IsSound (Event.forgotten address) b h = forget-IsSound address b h

run_from-IsSound : (es : List Event) (b : Bluetooth) → IsSound b → IsSound (run es b)
unfolding run
run_from-IsSound [] b h = h
run_from-IsSound (e ∷ es) b h = run_from-IsSound es (step e b) (step-IsSound e b h)

-- Whatever sequence of events padd sees after it starts, a target is left only while it is bonding, at
-- most 16 addresses are offered and at most 64 peers are known, which is what their arrays hold.
pub run-IsSound : (es : List Event) → IsSound (run es start)
run-IsSound es =
    run_from-IsSound es start
      (record { no_target = λ _. refl; offers = omega arith; peers = omega arith })

nobody : (a : Text) → same a [] ≡ false
unfolding same case_eq
nobody [] = refl
nobody (c ∷ t) = refl

-- Whatever has happened, while padd is not bonding, a device that it does not trust and has not armed
-- is refused: the reply is a rejection, and nothing but the offers changes.
pub authorize-stranger :
    (es : List Event) (path : Text)
    → is_bonding (run es start).pairing ≡ false
    → is_trusted (known_at path (run es start)) (run es start) ≡ false
    → same (address_of path) (run es start).armed ≡ false
    → authorize path (run es start) ≡ (Reply.rejected, offer (address_of path) (run es start))
unfolding authorize requested
authorize-stranger es path calm unknown unarmed =
    rw (unknown, unarmed, (run-IsSound es).no_target calm, nobody (address_of path)) refl
