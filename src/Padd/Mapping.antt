-- ===== src/Padd/Mapping.antt =====
-- guest/padd.c: what a device makes of one control of its seat's pad (deflection, stronger, converted,
-- mapped, effective).
pub mod Rest
use anyconsole.Base.{
  ℕ, Bool, true, false, not, ◌&&◌, ◌||◌, Option, none, some, List, [], ◌∷◌, ltb, ◌==◌,
  if◌then◌else◌,
}
use anyconsole.Base.Int.{ℤ, pos, negsuc, ◌-ℤ◌, ◌*ℤ◌, ltb_ℤ, eqb_ℤ, is_nonzero, distance}
use anyconsole.Padd.Codes.{axis_center, axis_max}
use anyconsole.Padd.Codes.Ev
use anyconsole.Padd.Codes.Abs
use anyconsole.Padd.Controls.{
  control, is_stick, rest, control_index, stick_direction, pressed_value,
}
use anyconsole.Padd.Modes.{Mode, mode_eq, drives_pad}
use anyconsole.Padd.Floats.{Floats}
use anyconsole.Padd.State.{Sides, Route, View, Rules}

-- C's value of a test.
abbrev pub truth : Bool → ℤ
truth b = if b then pos 1 else pos 0

unfoldable pub stronger : ℕ → ℤ → ℤ → ℤ
stronger i value candidate =
    if ltb (distance value (rest i)) (distance candidate (rest i)) then candidate else value

-- rerouted[i] & side, for the side of its rest that `raw` is on.
unfoldable pub is_rerouted : Sides → ℕ → ℤ → Bool
is_rerouted sides i raw =
    if ltb_ℤ raw (rest i)
    then sides.negative
    else if ltb_ℤ (rest i) raw
    then sides.positive
    else false

unfoldable pub routed : Rules → View → Bool
routed rules v = elim v.pad [ none ↦ false | some _ ↦ not rules.menu_open ]

module _ ⦃F : Floats⦄ where
  open F use {Double, of_int, add, mul, div, fmin, fmax, fabs, lround}

  unfoldable pub deflection : ℤ → Double
  deflection value = div (of_int (value -ℤ axis_center)) (of_int (axis_max -ℤ axis_center))

  unfoldable pub axis_value : Double → ℤ
  axis_value unit = lround (
      div
        (mul (add (fmax (of_int (negsuc 0)) (fmin (of_int (pos 1)) unit)) (of_int (pos 1)))
          (of_int axis_max))
        (of_int (pos 2)))

  -- `amount` of converted, before its sign is taken.
  unfoldable pub raw_amount : ℕ → ℤ → Double
  raw_amount source raw =
      if is_stick source
      then deflection raw
      else if not ((control source).button == 0)
      then div (of_int raw) (of_int axis_max)
      else if is_nonzero (control source).direction
      then of_int (raw *ℤ (control source).direction)
      else of_int raw

  unfoldable pub converted : Route → ℤ → ℤ
  converted route raw =
      let whole = raw_amount route.source raw in
      let amount =
        if is_nonzero route.sign
        then fmax (of_int (pos 0)) (mul (of_int route.sign) whole)
        else whole in
      if is_stick route.target
      then axis_value amount
      else if not ((control route.target).button == 0)
      then lround (mul (fmin (fabs amount) (of_int (pos 1))) (of_int axis_max))
      else if not (is_stick route.source)
      then truth (pressed_value route.source raw)
      else if is_nonzero route.sign
      then truth (eqb_ℤ (stick_direction raw) route.sign)
      else truth (is_nonzero (stick_direction raw))

  -- The loop of mapped over the routes.
  unfoldable pub routed_value : (ℕ → ℤ) → ℕ → List Route → ℤ → ℤ
  routed_value raw i [] value = value
  routed_value raw i (r ∷ rs) value =
      routed_value raw i rs
        (if r.target == i then stronger i value (converted r (raw r.source)) else value)

  unfoldable pub mapped : Rules → View → ℕ → ℤ
  mapped rules v i =
      routed_value v.raw i rules.routes
        (if is_rerouted (rules.rerouted i) i (v.raw i) then rest i else v.raw i)

  -- The index is one that control_index finds: it is never `none`.
  abbrev pub mapped_at : Rules → View → Option ℕ → ℤ
  mapped_at rules v none = pos 0
  mapped_at rules v (some i) = mapped rules v i

  -- effective, past its first test.
  unfoldable pub driven : Rules → View → ℕ → ℤ
  driven rules v i =
      let c = control i in
      let value = mapped rules v i in
      let stick = control_index Ev.abs (if c.code == Abs.hat0x then Abs.x else Abs.y) in
      if mode_eq v.mode Mode.analog
      then value
      else if is_nonzero c.direction
      then truth (is_nonzero value || eqb_ℤ (stick_direction (mapped_at rules v stick)) c.direction)
      else if rules.dial && c.code == Abs.x
      then (if rules.dial_absolute then mapped_at rules v (control_index Ev.abs Abs.rx) else value)
      else if is_stick i
      then axis_center
      else if not (c.button == 0)
      then (if pressed_value i value then axis_max else pos 0)
      else value

  unfoldable pub effective : Rules → View → ℕ → ℤ
  effective rules v i =
      if not (routed rules v) || not (drives_pad v.mode) then rest i else driven rules v i
