-- ===== src/Scene/Values.antt =====
-- guest/scene.c: the values of a node's properties, and how they move (target, scene_number,
-- scene_unset, scene_transition, eased, step_value, settled, step_node).
pub mod Props
pub mod Settled
pub mod Nodes
mod Tests
use Prim.Native.String.{String}
use text.Mathlib.Text.{◌==◌ as str_eq}
use anyconsole.Base.{
  ℕ, zero, suc, Bool, true, false, not, ◌&&◌, ◌||◌, Option, none, some, List, [], ◌∷◌, ◌==◌,
  if◌then◌else◌,
}
use anyconsole.Base.Int.{ℤ, pos}
use anyconsole.Base.Loop.{for_below}
use anyconsole.Scene.Floats.{Floats}
use anyconsole.Scene.Values.Props.{Kind, Prop, find_prop, channels}

pub data Easing : Type 0 where
  straight : Easing
  ease_in : Easing
  ease_out : Easing
  ease_in_out : Easing

module _ ⦃F : Floats⦄ where
  open F use {Float, of_int, add, sub, mul, div, fmin, sqrt, fabs, less, same}

  abbrev pub nought : Float
  nought = of_int (pos 0)

  -- struct value. `unit` is a character, 0 for none.
  pub record Value : Type 0 where
    pub now : Float
    pub target : Float
    pub velocity : Float
    pub origin : Float
    pub from : Float
    pub started : Float
    pub stepped : Float
    pub set : Bool
    pub has_from : Bool
    pub ready : Bool
    pub unit : ℕ

  -- struct motion: JUMP, EASE with its duration, and SPRING with its stiffness.
  pub data Motion : Type 0 where
    jump : Motion
    ease : Float → Easing → Motion
    spring : Float → Motion

  -- The clock is `skin_now`.
  unfoldable pub target : Float → Float → ℕ → Value → Value
  target clock goal unit v =
      let begun : Value =
        if v.ready
        then record v {
          origin = v.now;
          started = clock;
          stepped = if same v.velocity nought then clock else v.stepped;
        }
        else v in
      if v.ready && (same v.target goal && v.unit == unit)
      then v
      else record begun { target = goal; unit = unit; set = true }

  unfoldable pub eased : Easing → Float → Float
  eased straight t = t
  eased ease_in t = mul (mul t t) t
  eased ease_out t =
      let inverse = sub (of_int (pos 1)) t in
      sub (of_int (pos 1)) (mul (mul inverse inverse) inverse)
  eased ease_in_out t =
      let inverse = sub (of_int (pos 1)) t in
      if less t (div (of_int (pos 1)) (of_int (pos 2)))
      then mul (mul (mul (of_int (pos 4)) t) t) t
      else sub (of_int (pos 1)) (mul (mul (mul (of_int (pos 4)) inverse) inverse) inverse)

  abbrev pub settled : Value → Bool
  settled v = same v.now v.target && same v.velocity nought

  unfoldable pub begin : Float → Value → Value
  begin clock v = record v {
    ready = true;
    now = if v.has_from then v.from else v.target;
    origin = if v.has_from then v.from else v.target;
    started = clock;
    stepped = clock;
  }

  unfoldable pub jump_on : Value → Value
  jump_on v = record v { now = v.target; velocity = nought }

  -- a >= b
  abbrev pub at_least : Float → Float → Bool
  at_least a b = less b a || same a b

  unfoldable pub ease_on : Float → Float → Easing → Value → Value
  ease_on clock seconds easing v =
      let progress = fmin (div (sub clock v.started) seconds) (of_int (pos 1)) in
      record v {
        now =
            if at_least progress (of_int (pos 1))
            then v.target
            else add v.origin (mul (sub v.target v.origin) (eased easing progress));
      }

  -- SPRING_SUBSTEPS
  abbrev pub spring_substeps : ℕ
  spring_substeps = 4

  -- One of the substeps of a spring, `elapsed` long.
  unfoldable pub substep : Float → Float → Float → Value → Value
  substep stiffness damping elapsed v =
      let velocity = add v.velocity (
        mul (sub (mul (sub nought stiffness) (sub v.now v.target)) (mul damping v.velocity))
          elapsed) in
      record v { velocity = velocity; now = add v.now (mul velocity elapsed) }

  unfoldable pub spring_on : Float → Float → Float → Value → Value
  spring_on clock tolerance stiffness v =
      let longest = div (of_int (pos 1)) (of_int (pos 10)) in
      let elapsed = div (fmin (sub clock v.stepped) longest) (of_int (pos spring_substeps)) in
      let damping = mul (of_int (pos 2)) (sqrt stiffness) in
      let moved =
        for_below spring_substeps (λ _ w. substep stiffness damping elapsed w)
          (record v { stepped = clock }) in
      if less (fabs (sub moved.now moved.target)) tolerance
        && less (fabs moved.velocity) (mul tolerance (of_int (pos 10)))
      then record moved { now = moved.target; velocity = nought }
      else moved

  unfoldable pub move : Float → Motion → Float → Value → Value
  move clock jump tolerance v = jump_on v
  move clock (ease seconds easing) tolerance v = ease_on clock seconds easing v
  move clock (spring stiffness) tolerance v = spring_on clock tolerance stiffness v

  -- Whether the value changed, and the value.
  unfoldable pub step_value : Float → Motion → Float → Value → Bool × Value
  step_value clock motion tolerance v =
      if not v.set
      then (false, v)
      else if not v.ready
      then (true, begin clock v)
      else if settled v
      then (false, v)
      else (true, move clock motion tolerance v)

  -- The frames that are drawn at these times, one after the other.
  abbrev pub step_all : List Float → Motion → Float → Value → Value
  step_all [] motion tolerance v = v
  step_all (clock ∷ clocks) motion tolerance v =
      step_all clocks motion tolerance (step_value clock motion tolerance v).1
