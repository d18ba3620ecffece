-- ===== src/Padd/Effects/Rumbled.antt =====
-- What the motors of a seat's pads are told when a game plays an effect: rumble.
use native.Mathlib.Nat.{div-le_of_le-mul, mul-le-mul, mul-le-mul_left, mul_comm, mod-eq_of_lt}
use mathlib.Core.List.{map, reverse, append_assoc, reverse-cons}
use anyconsole.Base.{
  ℕ, ◌*◌, ◌/◌, ◌%◌, ◌^◌, ◌≤◌, ◌<◌, ◌≡◌, refl, sym, ◌∙◌, ap, arith, none, some, List, [], ◌∷◌, ◌++◌,
  get_elem?, Bool-cases, inl, inr, if◌then◌else◌, ◌==◌,
}
use anyconsole.Padd.State.{Out, Effect, Pad, Outputs, View, same_seat}
use anyconsole.Padd.Effects.{gain_max, scaled, rumble_pads, rumble}

-- The share of a magnitude that a gain leaves, as a whole number.
abbrev pub share : ℕ → ℕ → ℕ → ℕ
share count gain magnitude = if count == 0 then 0 else magnitude * gain / gain_max

share-le : (count gain magnitude : ℕ) → gain ≤ gain_max → share count gain magnitude ≤ magnitude
share-le count gain magnitude le = elim (Bool-cases (count == 0)) [
  | inl off ↦ rw off (omega arith)
  | inr on ↦ rw on (
      div-le_of_le-mul gain_max
        (omega (arith, mul-le-mul_left magnitude le, mul_comm magnitude gain_max)))
]

-- The product of two numbers of 16 bits fits a Uint32, and the quotient a Uint16.
scaled-share :
    (count gain magnitude : ℕ)
    → gain ≤ gain_max
    → magnitude < 2 ^ 16
    → scaled count gain magnitude ≡ share count gain magnitude
unfolding scaled
scaled-share count gain magnitude le low = elim (Bool-cases (count == 0)) [
  | inl off ↦ rw off refl
  | inr on ↦
      let small : magnitude ≤ 65535 = omega arith in
      let product : magnitude * gain < 2 ^ 32 = omega (arith, mul-le-mul small le) in
      let quotient : magnitude * gain / gain_max ≤ magnitude =
        div-le_of_le-mul gain_max
          (omega (arith, mul-le-mul_left magnitude le, mul_comm magnitude gain_max)) in
      rw on (
        ap (λ n. (n / gain_max) % 2 ^ 16) (mod-eq_of_lt product)
        ∙ mod-eq_of_lt (omega (arith, quotient)))
]

-- The pads whose device plays on the seat.
abbrev pub pads_on : (ℕ → View) → ℕ → List Pad → List Pad
pads_on views seat [] = []
pads_on views seat (p ∷ ps) =
    if same_seat (views p.input).pad seat then p ∷ pads_on views seat ps else pads_on views seat ps

abbrev pub motors : ℕ → ℕ → ℕ → Pad → Out
motors strong weak span p = Out.rumble p.instance_id strong weak span

-- The commands are written before those that there are, the last one first.
abbrev pub with_told : List Out → Outputs → Outputs
with_told told O = record O { out = reverse told ++ O.out }

rumble_pads-pads_on :
    (views : ℕ → View) (seat strong weak span : ℕ) (ps : List Pad) (O : Outputs)
    → rumble_pads views seat strong weak span ps O
      ≡ with_told (map (motors strong weak span) (pads_on views seat ps)) O
unfolding rumble_pads
rumble_pads-pads_on views seat strong weak span [] O = refl
rumble_pads-pads_on views seat strong weak span (p ∷ ps) O =
    elim (Bool-cases (same_seat (views p.input).pad seat)) [
      | inl on ↦ rw on (
          rumble_pads-pads_on views seat strong weak span ps _
          ∙ ap (λ out. record O { out = out })
              (sym (
                  append_assoc (reverse (map (motors strong weak span) (pads_on views seat ps)))
                    (motors strong weak span p ∷ []) O.out)
                ∙ ap (λ told. told ++ O.out)
                    (sym (
                      reverse-cons (motors strong weak span p)
                        (map (motors strong weak span) (pads_on views seat ps))))))
      | inr off ↦ rw off (rumble_pads-pads_on views seat strong weak span ps O)
    ]

rumble-found :
    (views : ℕ → View) (pads : List Pad) (seat id count : ℕ) (O : Outputs) (e : Effect)
    → get_elem? (O.effects seat) id ≡ some e
    → rumble views pads seat id count O
      ≡ rumble_pads views seat
          (scaled count (O.gain seat) e.strong)
          (scaled count (O.gain seat) e.weak)
          e.length
          pads
          O
unfolding rumble
rumble-found views pads seat id count O e found =
    ap
      (λ o. elim o as (λ _. Outputs) [
        | none ↦ O
        | some x ↦
            rumble_pads views seat (scaled count (O.gain seat) x.strong)
              (scaled count (O.gain seat) x.weak) x.length pads O
      ])
      found

-- When a game plays an effect that is stored, with a gain of at most 65535 and magnitudes of 16 bits,
-- each pad of the seat, and no other, is told once and in order: strong and weak are the effect's
-- magnitudes times the gain over 65535, rounded down, or 0 when the effect is stopped, so that no
-- product wraps around and no motor is driven harder than the effect says. Nothing else changes.
pub rumble-share :
    (views : ℕ → View) (pads : List Pad) (seat id count : ℕ) (O : Outputs) (e : Effect)
    → get_elem? (O.effects seat) id ≡ some e
    → O.gain seat ≤ gain_max
    → e.strong < 2 ^ 16
    → e.weak < 2 ^ 16
    → let strong = share count (O.gain seat) e.strong in
      let weak = share count (O.gain seat) e.weak in
      (rumble views pads seat id count O
        ≡ with_told (map (motors strong weak e.length) (pads_on views seat pads)) O)
      × (strong ≤ e.strong)
      × (weak ≤ e.weak)
rumble-share views pads seat id count O e found gain strong weak = (
  rumble-found views pads seat id count O e found
      ∙ ap (λ n. rumble_pads views seat n (scaled count (O.gain seat) e.weak) e.length pads O)
          (scaled-share count (O.gain seat) e.strong gain strong)
      ∙ ap (λ n. rumble_pads views seat (share count (O.gain seat) e.strong) n e.length pads O)
          (scaled-share count (O.gain seat) e.weak gain weak)
      ∙ rumble_pads-pads_on views seat _ _ e.length pads O,
  share-le count (O.gain seat) e.strong gain,
  share-le count (O.gain seat) e.weak gain,
)
