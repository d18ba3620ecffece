-- ===== src/Scene/Values/Nodes.antt =====
-- guest/scene.c: the properties of one node as they are written and drawn (scene_number, scene_unset,
-- scene_transition, parse_words, and of step_node what it does to the node itself). What Yoga is told,
-- and that the texts below the node are to be measured again, is written to `calls`, the last first.
use Prim.Native.String.{String}
use text.Mathlib.Text.{◌==◌ as str_eq}
use anyconsole.Base.{
  ℕ, suc, Bool, true, false, not, ◌||◌, Option, none, some, List, [], ◌∷◌, if◌then◌else◌,
}
use anyconsole.Base.Int.{pos}
use anyconsole.Base.Loop.{for_below}
use anyconsole.Scene.Floats.{Floats}
use anyconsole.Base.Counts.{write}
use anyconsole.Scene.Values.{Easing, Motion, Value, nought, target, settled, step_value}
use anyconsole.Scene.Values.Props.{
  Kind, Prop, props, find_prop, channels, is_no_number, is_still, is_enum, is_string, is_unit,
}

pub data Call : Type 0 where
  apply_layout : ℕ → Call
  apply_enum : ℕ → Call
  mark_subtree_text : Call

-- easings[], in the order of enum easing
abbrev pub easings : List (String × Easing)
easings =
    ("linear", Easing.straight)
    ∷ ("in", Easing.ease_in)
    ∷ ("out", Easing.ease_out)
    ∷ ("in-out", Easing.ease_in_out)
    ∷ []

-- A word that is not known eases out.
unfoldable pub easing_named : List (String × Easing) → String → Easing
easing_named [] text = Easing.ease_out
easing_named ((word, easing) ∷ rest) text =
    if str_eq word text then easing else easing_named rest text

module _ ⦃F : Floats⦄ where
  open F use {Float, of_int, div, less}

  -- An enum of none is DEFAULT_ENUM.
  pub record Node : Type 0 where
    pub values : ℕ → ℕ → Value
    pub motions : ℕ → Motion
    pub enums : ℕ → Option ℕ
    pub strings : ℕ → Option String
    pub layout_dirty : Bool
    pub calls : List Call

  abbrev pub set_value : ℕ → ℕ → Value → Node → Node
  set_value i c v n = record n { values = write n.values i (write (n.values i) c v) }

  abbrev pub called : Call → Node → Node
  called c n = record n { calls = c ∷ n.calls }

  unfoldable pub put_number : Float → Float → Option (ℕ × Prop) → Node → Node
  put_number clock number none n = n
  put_number clock number (some (i, p)) n =
      if is_no_number p.kind
      then n
      else (let t = set_value i 0 (target clock number 0 (n.values i 0)) n in
          let marked = if p.inherited then called Call.mark_subtree_text t else t in
          record marked { layout_dirty = true })

  unfoldable pub scene_number : Float → String → Float → Node → Node
  scene_number clock name number n = put_number clock number (find_prop name) n

  -- (struct value){0}
  abbrev pub blank : Value
  blank = record {
    now = nought;
    target = nought;
    velocity = nought;
    origin = nought;
    from = nought;
    started = nought;
    stepped = nought;
    set = false;
    has_from = false;
    ready = false;
    unit = 0;
  }

  unfoldable pub unset : Option (ℕ × Prop) → Node → Node
  unset none n = n
  unset (some (i, p)) n =
      let t = for_below (channels p.kind) (λ c s. set_value i c blank s) n in
      let u =
        if is_enum p.kind
        then called (Call.apply_enum i) (record t { enums = write t.enums i none })
        else t in
      let v = if is_string p.kind then record u { strings = write u.strings i none } else u in
      called Call.mark_subtree_text (called (Call.apply_layout i) v)

  unfoldable pub scene_unset : String → Node → Node
  scene_unset name n = unset (find_prop name) n

  abbrev pub curve_of : Option String → Easing
  curve_of none = Easing.ease_out
  curve_of (some word) = easing_named easings word

  unfoldable pub motion_of : Float → Option String → Float → Motion
  motion_of milliseconds easing stiffness =
      if less nought stiffness
      then Motion.spring stiffness
      else if less nought milliseconds
      then Motion.ease (div milliseconds (of_int (pos 1000))) (curve_of easing)
      else Motion.jump

  unfoldable pub put_motion : Motion → Option (ℕ × Prop) → Node → Node
  put_motion motion none n = n
  put_motion motion (some (i, p)) n = record n { motions = write n.motions i motion }

  unfoldable pub scene_transition : String → Float → Option String → Float → Node → Node
  scene_transition name milliseconds easing stiffness n =
      put_motion (motion_of milliseconds easing stiffness) (find_prop name) n

  -- UNIT_PRECISION or PIXEL_PRECISION
  unfoldable pub precision : Kind → Float
  precision kind =
      if is_unit kind
      then div (of_int (pos 2)) (of_int (pos 1000))
      else div (of_int (pos 1)) (of_int (pos 10))

  -- The node with whether a channel has changed, and whether a value of a node is still moving.
  pub record Stepped : Type 0 where
    pub node : Node
    pub changed : Bool
    pub moving : Bool

  unfoldable pub step_channel : Float → ℕ → Prop → ℕ → Stepped → Stepped
  step_channel clock i p c s =
      let (changed, value) =
        step_value clock (s.node.motions i) (precision p.kind) (s.node.values i c) in
      record {
        node = set_value i c value s.node;
        changed = s.changed || changed;
        moving = s.moving || not (settled value);
      }

  -- A property of the loop of step_node.
  unfoldable pub step_prop : Float → ℕ → Prop → Node × Bool → Node × Bool
  step_prop clock i p (n, moving) =
      let s =
        for_below (channels p.kind) (step_channel clock i p)
          (record { node = n; changed = false; moving = moving }) in
      let laid = called (Call.apply_layout i) s.node in
      if is_still p.kind
      then (n, moving)
      else if not s.changed
      then (s.node, s.moving)
      else (if p.inherited then called Call.mark_subtree_text laid else laid, s.moving)

  unfoldable pub step_props : Float → ℕ → List Prop → Node × Bool → Node × Bool
  step_props clock i [] s = s
  step_props clock i (p ∷ ps) s = step_props clock (suc i) ps (step_prop clock i p s)

  -- step_node, without the loop over the children: the node, and `moving`.
  unfoldable pub step_own : Float → Node × Bool → Node × Bool
  step_own clock s = step_props clock 0 props s
