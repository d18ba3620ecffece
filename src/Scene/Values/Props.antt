-- ===== src/Scene/Values/Props.antt =====
-- guest/scene.c: the properties of a node: names, kinds, and whether a node's children have them too
-- (props, find_prop, channels). The edge that a property is to Yoga is left out.
use Prim.Native.String.{String}
use text.Mathlib.Text.{◌==◌ as str_eq}
use anyconsole.Base.{ℕ, suc, Bool, true, false, Option, none, some, List, [], ◌∷◌, if◌then◌else◌}

-- enum kind
pub data Kind : Type 0 where
  length : Kind
  number : Kind
  ratio : Kind
  index : Kind
  color : Kind
  enumerated : Kind
  string : Kind

pub record Prop : Type 0 where
  pub name : String
  pub kind : Kind
  pub inherited : Bool

abbrev prop : String → Kind → Bool → Prop
prop name kind inherited = record { name = name; kind = kind; inherited = inherited }

abbrev pub props : List Prop
props =
    prop "width" Kind.length false
    ∷ prop "height" Kind.length false
    ∷ prop "minWidth" Kind.length false
    ∷ prop "minHeight" Kind.length false
    ∷ prop "maxWidth" Kind.length false
    ∷ prop "maxHeight" Kind.length false
    ∷ prop "flexBasis" Kind.length false
    ∷ prop "flexGrow" Kind.length false
    ∷ prop "flexShrink" Kind.length false
    ∷ prop "aspectRatio" Kind.length false
    ∷ prop "gap" Kind.length false
    ∷ prop "rowGap" Kind.length false
    ∷ prop "columnGap" Kind.length false
    ∷ prop "top" Kind.length false
    ∷ prop "left" Kind.length false
    ∷ prop "right" Kind.length false
    ∷ prop "bottom" Kind.length false
    ∷ prop "margin" Kind.length false
    ∷ prop "marginTop" Kind.length false
    ∷ prop "marginLeft" Kind.length false
    ∷ prop "marginRight" Kind.length false
    ∷ prop "marginBottom" Kind.length false
    ∷ prop "marginHorizontal" Kind.length false
    ∷ prop "marginVertical" Kind.length false
    ∷ prop "padding" Kind.length false
    ∷ prop "paddingTop" Kind.length false
    ∷ prop "paddingLeft" Kind.length false
    ∷ prop "paddingRight" Kind.length false
    ∷ prop "paddingBottom" Kind.length false
    ∷ prop "paddingHorizontal" Kind.length false
    ∷ prop "paddingVertical" Kind.length false
    ∷ prop "borderWidth" Kind.length false
    ∷ prop "opacity" Kind.ratio false
    ∷ prop "translateX" Kind.number false
    ∷ prop "translateY" Kind.number false
    ∷ prop "scale" Kind.ratio false
    ∷ prop "borderRadius" Kind.number false
    ∷ prop "shadowBlur" Kind.number false
    ∷ prop "shadowOffsetX" Kind.number false
    ∷ prop "shadowOffsetY" Kind.number false
    ∷ prop "fontSize" Kind.number true
    ∷ prop "fontWeight" Kind.number true
    ∷ prop "lineHeight" Kind.ratio true
    ∷ prop "backdropBlur" Kind.number false
    ∷ prop "blur" Kind.number false
    ∷ prop "follow" Kind.index false
    ∷ prop "track" Kind.index false
    ∷ prop "backgroundColor" Kind.color false
    ∷ prop "borderColor" Kind.color false
    ∷ prop "color" Kind.color true
    ∷ prop "shadowColor" Kind.color false
    ∷ prop "flexDirection" Kind.enumerated false
    ∷ prop "justifyContent" Kind.enumerated false
    ∷ prop "alignItems" Kind.enumerated false
    ∷ prop "alignSelf" Kind.enumerated false
    ∷ prop "alignContent" Kind.enumerated false
    ∷ prop "flexWrap" Kind.enumerated false
    ∷ prop "position" Kind.enumerated false
    ∷ prop "display" Kind.enumerated false
    ∷ prop "overflow" Kind.enumerated false
    ∷ prop "textAlign" Kind.enumerated true
    ∷ prop "textOverflow" Kind.enumerated true
    ∷ prop "objectFit" Kind.enumerated false
    ∷ prop "fontFamily" Kind.string true
    ∷ prop "fontVariation" Kind.string true
    ∷ prop "src" Kind.string false
    ∷ []

unfoldable pub find_from : List Prop → String → ℕ → Option (ℕ × Prop)
find_from [] name i = none
find_from (p ∷ ps) name i = if str_eq p.name name then some (i, p) else find_from ps name (suc i)

-- The index of a property, with its entry.
unfoldable pub find_prop : String → Option (ℕ × Prop)
find_prop name = find_from props name 0

-- CHANNELS
abbrev pub color_channels : ℕ
color_channels = 4

unfoldable pub channels : Kind → ℕ
channels color = color_channels
channels kind = 1

-- The kinds that scene_number leaves alone: a color, a word and a text.
abbrev pub is_no_number : Kind → Bool
is_no_number color = true
is_no_number enumerated = true
is_no_number string = true
is_no_number kind = false

-- The kinds that do not move.
abbrev pub is_still : Kind → Bool
is_still enumerated = true
is_still string = true
is_still index = true
is_still kind = false

abbrev pub is_enum : Kind → Bool
is_enum enumerated = true
is_enum kind = false

abbrev pub is_string : Kind → Bool
is_string string = true
is_string kind = false

abbrev pub is_unit : Kind → Bool
is_unit ratio = true
is_unit color = true
is_unit kind = false
