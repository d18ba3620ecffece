-- ===== src/Padd/Bluetooth/Kept.antt =====
-- Pairing never leaves a target over: the operations of pairing itself keep the tables sound.
use anyconsole.Base.{
  ℕ, ◌≤◌, ◌≡◌, refl, Bool, true, false, arith, if◌then◌else◌, Bool-cases, Option-cases, inl, inr,
  [], length,
}
use anyconsole.Padd.Bluetooth.Texts.{is_empty}
use anyconsole.Padd.Bluetooth.{
  Peer, Pairing, Bluetooth, Call, is_bonding, is_not_pairing, ask, put_peer, trust, stop_pairing,
  on_paired, consider, start_pairing, toggle_pairing, known_address, physical_pads_max,
  bluetooth_devices_max,
}
use anyconsole.Padd.Bluetooth.Lengths.{length-set_peer, length-unsee}

pub record IsSound (b : Bluetooth) : Type 0 where
  pub no_target : is_bonding b.pairing ≡ false → b.target ≡ []
  pub offers : length b.offered ≤ physical_pads_max
  pub peers : length b.known ≤ bluetooth_devices_max

pub ask-IsSound : (c : Call) (b : Bluetooth) → IsSound b → IsSound (ask c b)
ask-IsSound c b h = record { no_target = h.no_target; offers = h.offers; peers = h.peers }

pub if-IsSound : {b c : Bluetooth} (t : Bool) → IsSound b → IsSound c → IsSound (if t then b else c)
if-IsSound true h k = h
if-IsSound false h k = k

pub put_peer-IsSound : (i : ℕ) (p : Peer) (b : Bluetooth) → IsSound b → IsSound (put_peer i p b)
put_peer-IsSound i p b h = record {
  no_target = h.no_target;
  offers = h.offers;
  peers = omega (arith, h.peers, length-set_peer b.known i p);
}

pub trust-IsSound : (i : ℕ) (b : Bluetooth) → IsSound b → IsSound (trust i b)
unfolding trust
trust-IsSound i b h = ask-IsSound _ _ (put_peer-IsSound i _ b h)

pub unpaired-IsSound :
    (b : Bluetooth) → IsSound b → IsSound (record b { pairing = Pairing.not_pairing; target = [] })
unpaired-IsSound b h = record { no_target = λ e. refl; offers = h.offers; peers = h.peers }

pub stop_pairing-IsSound : (b : Bluetooth) → IsSound b → IsSound (stop_pairing b)
unfolding stop_pairing
stop_pairing-IsSound b h =
    if-IsSound (is_not_pairing b.pairing) h
      (ask-IsSound _ _ (ask-IsSound _ _ (unpaired-IsSound _ (if-IsSound _ (ask-IsSound _ b h) h))))

pub on_paired-IsSound : (e : Bool) (b : Bluetooth) → IsSound b → IsSound (on_paired e b)
unfolding on_paired
on_paired-IsSound e b h = elim (Option-cases (known_address b.target b)) [
  | inl q ↦ rw (q, on_paired) (stop_pairing-IsSound _ (ask-IsSound _ b h))
  | inr (i, q) ↦
      rw (q, on_paired)
        (if-IsSound e (stop_pairing-IsSound _ (ask-IsSound _ b h))
          (stop_pairing-IsSound _ (ask-IsSound _ _ (ask-IsSound _ _ (trust-IsSound i b h)))))
]

pub consider-IsSound : (i : ℕ) (b : Bluetooth) → IsSound b → IsSound (consider i b)
unfolding consider
consider-IsSound i b h =
    if-IsSound _ h (record { no_target = λ e. ground arith; offers = h.offers; peers = h.peers })

-- A search starts only from a state that is not pairing, where no target is left.
pub toggle_pairing-IsSound : (b : Bluetooth) → IsSound b → IsSound (toggle_pairing b)
unfolding toggle_pairing start_pairing
toggle_pairing-IsSound b h = elim (Bool-cases (is_not_pairing b.pairing)) [
  | inl e ↦ rw e (
      if-IsSound (is_empty b.adapter) (ask-IsSound _ b h) (record {
        no_target = λ _. h.no_target (idle b.pairing e);
        offers = h.offers;
        peers = omega (arith, h.peers, length-unsee b.known);
      }))
  | inr e ↦ rw e (stop_pairing-IsSound b h)
]
  where
    idle : (p : Pairing) → is_not_pairing p ≡ true → is_bonding p ≡ false
    idle p e = ground arith
