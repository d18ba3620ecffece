-- ===== src/Padd/Mapping/Rest.antt =====
-- A control at rest is mapped to a control at rest: with nothing held, no device moves its seat's pad.
use anyconsole.Base.{
  ℕ, ◌<◌, ◌≡◌, refl, ◌∙◌, sym, Bool, true, false, not, ◌||◌, arith, ◌==◌, if◌then◌else◌, ==_iff,
  Option, some, Bool-cases, inl, inr, List, [], ◌∷◌, All,
}
use anyconsole.Base.Int.{ℤ, pos, ◌-ℤ◌, ◌*ℤ◌, is_nonzero, eqb_ℤ}
use anyconsole.Padd.Codes.{axis_center, axis_max}
use anyconsole.Padd.Codes.Ev
use anyconsole.Padd.Codes.Abs
use anyconsole.Padd.Controls.{
  control, is_stick, rest, control_count, control_index, stick_direction, pressed_value,
}
use anyconsole.Padd.Modes.{Mode, mode_eq}
use anyconsole.Padd.Floats.{Floats, IsIeee}
use anyconsole.Padd.State.{Route, View, Rules}
use anyconsole.Padd.Mapping.{
  truth, stronger, deflection, axis_value, raw_amount, converted, routed_value, mapped, mapped_at,
  driven, effective,
}

pub stronger-rest : (i : ℕ) (value : ℤ) → stronger i value (rest i) ≡ value
unfolding stronger
stronger-rest i value = ground arith

is_stick-button : (i : ℕ) → is_stick i ≡ true → ((control i).button == 0) ≡ true
unfolding is_stick
is_stick-button i h = ground arith

rest-stick : (i : ℕ) → is_stick i ≡ true → rest i ≡ axis_center
unfolding rest
rest-stick i h = rw h

rest-other : (i : ℕ) → is_stick i ≡ false → rest i ≡ pos 0
unfolding rest
rest-other i h = rw h

pressed_value-zero : (i : ℕ) → pressed_value i (pos 0) ≡ false
unfolding pressed_value
pressed_value-zero i = ground arith

stick_direction-center : stick_direction axis_center ≡ pos 0
unfolding stick_direction
stick_direction-center = refl

zero_times : (n : ℤ) → pos 0 *ℤ n ≡ pos 0
unfolding ◌*ℤ◌
zero_times n = ground arith

-- Each route reads a control of the table.
abbrev pub RoutesInRange : List Route → Type 0
RoutesInRange = All (λ r. r.source < control_count)

-- Every control of the device is at rest.
abbrev pub IsResting : View → Type 0
IsResting v = (c : ℕ) → c < control_count → v.raw c ≡ rest c

pub if_same {ℓ} : {A : Type ℓ} (b : Bool) (x : A) → (if b then x else x) ≡ x
if_same true x = refl
if_same false x = refl

if-eq {ℓ} :
    {A : Type ℓ} {x y z : A} (b : Bool)
    → (b ≡ true → x ≡ z)
    → (b ≡ false → y ≡ z)
    → (if b then x else y) ≡ z
if-eq true h k = h refl
if-eq false h k = k refl

rest-direction : (i : ℕ) → is_nonzero (control i).direction ≡ true → rest i ≡ pos 0
unfolding rest is_stick
rest-direction i h = ground arith

-- A direction of the hat that is at rest, whose stick is centred, is not pressed.
pointed :
    (i : ℕ)
    → is_nonzero (control i).direction ≡ true
    → truth (is_nonzero (rest i) || eqb_ℤ (pos 0) (control i).direction) ≡ rest i
pointed i h = rw (rest-direction i h) (ground arith)

module _ ⦃F : Floats⦄ (ieee : IsIeee F) where
  open F use {Double, of_int}
  open ieee use {IsZero}

  deflection-IsZero : IsZero (deflection axis_center)
  unfolding deflection ◌-ℤ◌
  deflection-IsZero = ieee.zero_div 126 (of_int (pos 0)) ieee.zero_int

  axis_value-IsZero : (z : Double) → IsZero z → axis_value z ≡ axis_center
  unfolding axis_value
  axis_value-IsZero z h =
      rw
        (
          axis_value,
          ieee.zero_add (pos 1) _ (ieee.fmax_below _ (ieee.fmin_above z h)),
          ieee.one_mul axis_max,
        )
        ieee.lround_half

  if-IsZero : (b : Bool) (x y : Double) → IsZero x → IsZero y → IsZero (if b then x else y)
  if-IsZero true x y h k = h
  if-IsZero false x y h k = k

  raw_amount-rest : (i : ℕ) → IsZero (raw_amount i (rest i))
  unfolding raw_amount
  raw_amount-rest i = elim (Bool-cases (is_stick i)) [
    | inl stick ↦ rw (stick, rest-stick i stick) deflection-IsZero
    | inr other ↦
        (let signed : IsZero (of_int (pos 0 *ℤ (control i).direction)) =
            rw zero_times ieee.zero_int in
          rw (other, rest-other i other)
            (if-IsZero (not ((control i).button == 0)) _ _ (ieee.zero_div 254 _ ieee.zero_int)
              (if-IsZero (is_nonzero (control i).direction) _ _ signed ieee.zero_int)))
  ]

  abbrev resting_amount : Route → Double
  resting_amount r =
      let whole = raw_amount r.source (rest r.source) in
      if is_nonzero r.sign then F.fmax (of_int (pos 0)) (F.mul (of_int r.sign) whole) else whole

  amount-rest : (r : Route) → IsZero (resting_amount r)
  amount-rest r =
      if-IsZero _ _ _ (ieee.fmax_zero _ (ieee.mul_zero r.sign _ (raw_amount-rest r.source)))
        (raw_amount-rest r.source)

  unsigned_side :
      (sign : ℤ) → (if is_nonzero sign then truth (eqb_ℤ (pos 0) sign) else pos 0) ≡ pos 0
  unsigned_side sign = ground arith

  converted-stick :
      (r : Route) → is_stick r.target ≡ true → converted r (rest r.source) ≡ axis_center
  unfolding converted
  converted-stick r t = rw (converted, t) (axis_value-IsZero _ (amount-rest r))

  converted-trigger :
      (r : Route)
      → is_stick r.target ≡ false
      → ((control r.target).button == 0) ≡ false
      → converted r (rest r.source) ≡ pos 0
  unfolding converted
  converted-trigger r t b =
      rw (converted, t, b)
        (ieee.lround_zero _
          (ieee.zero_mul axis_max _ (ieee.fmin_zero _ (ieee.fabs_zero _ (amount-rest r)))))

  converted-button :
      (r : Route)
      → is_stick r.target ≡ false
      → ((control r.target).button == 0) ≡ true
      → converted r (rest r.source) ≡ pos 0
  unfolding converted
  converted-button r t b = elim (Bool-cases (is_stick r.source)) [
    | inl stick ↦
        rw (converted, t, b, stick, rest-stick r.source stick, stick_direction-center)
          (unsigned_side r.sign)
    | inr other ↦ rw (converted, t, b, other, rest-other r.source other, pressed_value-zero)
  ]

  -- Whatever the route, a source at rest gives its target's rest.
  pub converted-rest : (r : Route) → converted r (rest r.source) ≡ rest r.target
  converted-rest r = elim (Bool-cases (is_stick r.target)) [
    | inl t ↦ converted-stick r t ∙ sym (rest-stick r.target t)
    | inr t ↦ elim (Bool-cases ((control r.target).button == 0)) [
      | inl b ↦ converted-button r t b ∙ sym (rest-other r.target t)
      | inr b ↦ converted-trigger r t b ∙ sym (rest-other r.target t)
    ]
  ]

  routed_value-rest :
      (raw : ℕ → ℤ) (i : ℕ) (rs : List Route)
      → ((c : ℕ) → c < control_count → raw c ≡ rest c)
      → RoutesInRange rs
      → routed_value raw i rs (rest i) ≡ rest i
  unfolding routed_value
  routed_value-rest raw i [] still ok = refl
  routed_value-rest raw i (r ∷ rs) still ok =
      rw (kept (r.target == i) refl) (routed_value-rest raw i rs still ok.1)
    where
      kept :
          (b : Bool)
          → (r.target == i) ≡ b
          → (if b then stronger i (rest i) (converted r (raw r.source)) else rest i) ≡ rest i
      kept false e = refl
      kept true e =
          rw (still r.source ok.0, converted-rest r)
            (rw ((==_iff r.target i).0 e) (stronger-rest i (rest i)))

  pub mapped-rest :
      (rules : Rules) (v : View) (i : ℕ)
      → i < control_count
      → RoutesInRange rules.routes
      → IsResting v
      → mapped rules v i ≡ rest i
  unfolding mapped
  mapped-rest rules v i lt ok still =
      rw (mapped, still i lt, if_same) (routed_value-rest v.raw i rules.routes still ok)

  mapped_at-rest :
      (rules : Rules) (v : View) (k : Option ℕ) (c : ℕ)
      → k ≡ some c
      → c < control_count
      → RoutesInRange rules.routes
      → IsResting v
      → mapped_at rules v k ≡ rest c
  mapped_at-rest rules v k c e lt ok still = rw e (mapped-rest rules v c lt ok still)

  -- The stick that stands for a direction of the hat is centred.
  hat_stick-rest :
      (rules : Rules) (v : View) (b : Bool)
      → RoutesInRange rules.routes
      → IsResting v
      → mapped_at rules v (control_index Ev.abs (if b then Abs.x else Abs.y)) ≡ axis_center
  unfolding control_index rest control
  hat_stick-rest rules v true ok still = mapped_at-rest rules v _ 15 refl (omega arith) ok still
  hat_stick-rest rules v false ok still = mapped_at-rest rules v _ 16 refl (omega arith) ok still

  driven-rest :
      (rules : Rules) (v : View) (i : ℕ)
      → rules.dial ≡ false
      → i < control_count
      → RoutesInRange rules.routes
      → IsResting v
      → driven rules v i ≡ rest i
  unfolding driven
  driven-rest rules v i off lt ok still =
      let value = mapped-rest rules v i lt ok still in
      rw
        (
          driven,
          value,
          hat_stick-rest rules v ((control i).code == Abs.hat0x) ok still,
          stick_direction-center,
          off,
        )
        (if-eq (mode_eq v.mode Mode.analog) (λ _. refl)
          λ _.
            if-eq (is_nonzero (control i).direction) (λ d. pointed i d)
              λ _.
                if-eq (is_stick i) (λ t. sym (rest-stick i t))
                  λ t.
                    if-eq (not ((control i).button == 0))
                      (λ _. rw (rest-other i t, pressed_value-zero i)) (λ _. refl))

  -- Without a dial and with routes from the table, a device whose controls are all at rest gives every
  -- control of its pad the rest value, whatever its mode and seat.
  pub effective-rest :
      (rules : Rules) (v : View) (i : ℕ)
      → rules.dial ≡ false
      → i < control_count
      → RoutesInRange rules.routes
      → IsResting v
      → effective rules v i ≡ rest i
  unfolding effective
  effective-rest rules v i off lt ok still =
      if-eq _ (λ _. refl) (λ _. driven-rest rules v i off lt ok still)
