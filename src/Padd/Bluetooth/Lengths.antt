-- ===== src/Padd/Bluetooth/Lengths.antt =====
-- How the tables of pairing grow and shrink.
use anyconsole.Base.{ℕ, zero, suc, ◌≤◌, ◌≡◌, refl, ap, arith, List, [], ◌∷◌, length}
use anyconsole.Padd.Bluetooth.Texts.{Text}
use anyconsole.Padd.Bluetooth.{Peer, set_peer, unsee, all_but_last, remove_offer}
use anyconsole.Padd.Bluetooth.Objects.{drop_last, remove_peer}

pub length-set_peer : (ps : List Peer) (i : ℕ) (q : Peer) → length (set_peer ps i q) ≡ length ps
length-set_peer [] i q = refl
length-set_peer (p ∷ ps) zero q = refl
length-set_peer (p ∷ ps) (suc i) q = ap suc (length-set_peer ps i q)

pub length-unsee : (ps : List Peer) → length (unsee ps) ≡ length ps
unfolding unsee
length-unsee [] = refl
length-unsee (p ∷ ps) = ap suc (length-unsee ps)

pub length-all_but_last : (o : Text) (os : List Text) → length (all_but_last (o ∷ os)) ≡ length os
unfolding all_but_last
length-all_but_last o [] = refl
length-all_but_last o (p ∷ os) = ap suc (length-all_but_last p os)

pub length-remove_offer : (os : List Text) (i : ℕ) → length (remove_offer os i) ≤ length os
unfolding remove_offer
length-remove_offer [] i = omega arith
length-remove_offer (o ∷ []) i = omega arith
length-remove_offer (o ∷ p ∷ os) zero = omega (arith, length-all_but_last p os)
length-remove_offer (o ∷ p ∷ os) (suc i) = omega (arith, length-remove_offer (p ∷ os) i)

pub length-drop_last : (p : Peer) (ps : List Peer) → length (drop_last (p ∷ ps)) ≡ length ps
unfolding drop_last
length-drop_last p [] = refl
length-drop_last p (q ∷ ps) = ap suc (length-drop_last q ps)

pub length-remove_peer : (ps : List Peer) (i : ℕ) → length (remove_peer ps i) ≤ length ps
unfolding remove_peer
length-remove_peer [] i = omega arith
length-remove_peer (p ∷ []) i = omega arith
length-remove_peer (p ∷ q ∷ ps) zero = omega (arith, length-drop_last q ps)
length-remove_peer (p ∷ q ∷ ps) (suc i) = omega (arith, length-remove_peer (q ∷ ps) i)
