-- ===== src/Padd/Controls.antt =====
-- guest/padd.c: the table of a pad's controls, the names and bindings that stand for them, and what
-- is read off the table (is_stick, rest, control_named, control_index, stick_direction, ...).
-- A `short` code of 0, which means none, stays 0; an index of -1 is `none`.
use Prim.Native.String.{String}
use text.Mathlib.Text.{◌==◌ as str_eq}
use anyconsole.Base.{
  ℕ, zero, suc, ◌≡◌, ◌<◌, ◌+◌, arith, length, Bool, not, ◌&&◌, ◌||◌, Option, none, some, List, [],
  ◌∷◌, ◌==◌, if◌then◌else◌,
}
use anyconsole.Base.Int.{ℤ, pos, negsuc, ltb_ℤ, eqb_ℤ, is_nonzero}
use anyconsole.Padd.Codes.{axis_center, reach_low, reach_high, trigger_press}
use anyconsole.Padd.Codes.Ev
use anyconsole.Padd.Codes.Btn
use anyconsole.Padd.Codes.Abs
use anyconsole.Padd.Codes.Key

-- struct control; `kind` is its `type`.
pub record Control : Type 0 where
  pub name : String
  pub kind : ℕ
  pub code : ℕ
  pub button : ℕ
  pub direction : ℤ

-- The macros KEY, AXIS and HAT.
abbrev key_entry : String → ℕ → Control
key_entry n c = record { name = n; kind = Ev.key; code = c; button = 0; direction = pos 0 }

abbrev axis_entry : String → ℕ → ℕ → Control
axis_entry n c b = record { name = n; kind = Ev.abs; code = c; button = b; direction = pos 0 }

abbrev hat_entry : String → ℕ → ℤ → Control
hat_entry n c d = record { name = n; kind = Ev.abs; code = c; button = 0; direction = d }

abbrev pub controls : List Control
controls =
    key_entry "a" Btn.south
    ∷ key_entry "b" Btn.east
    ∷ key_entry "y" Btn.north
    ∷ key_entry "x" Btn.west
    ∷ key_entry "leftshoulder" Btn.tl
    ∷ key_entry "rightshoulder" Btn.tr
    ∷ key_entry "leftstick" Btn.thumbl
    ∷ key_entry "rightstick" Btn.thumbr
    ∷ key_entry "back" Btn.select
    ∷ key_entry "start" Btn.start
    ∷ key_entry "guide" Btn.mode
    ∷ key_entry "touchpad" Btn.trigger_happy1
    ∷ key_entry "paddle1" Btn.trigger_happy2
    ∷ key_entry "paddle2" Btn.trigger_happy3
    ∷ key_entry "misc1" Btn.trigger_happy4
    ∷ axis_entry "leftx" Abs.x 0
    ∷ axis_entry "lefty" Abs.y 0
    ∷ axis_entry "rightx" Abs.rx 0
    ∷ axis_entry "righty" Abs.ry 0
    ∷ axis_entry "lefttrigger" Abs.z Btn.tl2
    ∷ axis_entry "righttrigger" Abs.rz Btn.tr2
    ∷ hat_entry "dpup" Abs.hat0y (negsuc 0)
    ∷ hat_entry "dpdown" Abs.hat0y (pos 1)
    ∷ hat_entry "dpleft" Abs.hat0x (negsuc 0)
    ∷ hat_entry "dpright" Abs.hat0x (pos 1)
    ∷ []

abbrev pub control_count : ℕ
control_count = 25

-- The cell `index` of a table of controls. The code reads only cells below the count.
pub cell : List Control → ℕ → Control
cell [] i = hat_entry "" 0 (pos 0)
cell (c ∷ cs) zero = c
cell (c ∷ cs) (suc i) = cell cs i

unfoldable pub control : ℕ → Control
unfolding cell
control i = cell controls i

unfoldable pub is_stick : ℕ → Bool
is_stick i =
    (control i).kind == Ev.abs && (control i).button == 0 && not (is_nonzero (control i).direction)

unfoldable pub rest : ℕ → ℤ
unfolding is_stick
rest i = if is_stick i then axis_center else pos 0

-- The first index from `i` on whose control passes the test.
pub find_control : (Control → Bool) → List Control → ℕ → Option ℕ
find_control test [] i = none
find_control test (c ∷ cs) i = if test c then some i else find_control test cs (suc i)

-- A null name is `none`.
unfoldable pub control_named : Option String → Option ℕ
unfolding find_control
control_named none = none
control_named (some n) = find_control (λ c. str_eq c.name n) controls 0

unfoldable pub control_index : ℕ → ℕ → Option ℕ
unfolding find_control
control_index kind code =
    find_control (λ c. c.kind == kind && c.code == code && not (is_nonzero c.direction)) controls 0

unfoldable pub is_left_stick : ℕ → Bool
unfolding is_stick
is_left_stick i = is_stick i && ((control i).code == Abs.x || (control i).code == Abs.y)

unfoldable pub stick_direction : ℤ → ℤ
stick_direction value =
    if ltb_ℤ value reach_low then negsuc 0 else if ltb_ℤ reach_high value then pos 1 else pos 0

unfoldable pub pressed_value : ℕ → ℤ → Bool
pressed_value i value =
    if not ((control i).button == 0) then ltb_ℤ trigger_press value else ltb_ℤ (pos 0) value

unfoldable pub direction_control : ℕ → ℤ → Option ℕ
unfolding find_control
direction_control stick direction =
    let hat_code = if (control stick).code == Abs.x then Abs.hat0x else Abs.hat0y in
    find_control (λ c. c.code == hat_code && eqb_ℤ c.direction direction) controls 0

-- struct binding and the tables of bindings.
pub record Binding : Type 0 where
  pub control : String
  pub code : ℕ

abbrev bind : String → ℕ → Binding
bind n c = record { control = n; code = c }

abbrev pub key_bindings : List Binding
key_bindings =
    bind "dpup" Key.up
    ∷ bind "dpdown" Key.down
    ∷ bind "dpleft" Key.left
    ∷ bind "dpright" Key.right
    ∷ bind "a" Key.enter
    ∷ bind "b" Key.esc
    ∷ bind "x" Key.space
    ∷ bind "y" Key.tab
    ∷ bind "leftshoulder" Key.pageup
    ∷ bind "rightshoulder" Key.pagedown
    ∷ bind "start" Key.enter
    ∷ bind "back" Key.backspace
    ∷ []

abbrev pub pointer_bindings : List Binding
pointer_bindings = bind "a" Btn.left ∷ bind "b" Btn.right ∷ bind "x" Btn.middle ∷ []

abbrev pub click_bindings : List Binding
click_bindings = bind "righttrigger" Btn.left ∷ bind "lefttrigger" Btn.right ∷ []

abbrev pub keyboard_pad_bindings : List Binding
keyboard_pad_bindings =
    bind "dpup" Key.up
    ∷ bind "dpdown" Key.down
    ∷ bind "dpleft" Key.left
    ∷ bind "dpright" Key.right
    ∷ bind "a" Key.z
    ∷ bind "b" Key.x
    ∷ bind "x" Key.a
    ∷ bind "y" Key.s
    ∷ bind "leftshoulder" Key.q
    ∷ bind "rightshoulder" Key.w
    ∷ bind "start" Key.enter
    ∷ bind "back" Key.rightshift
    ∷ []

abbrev pub mouse_pad_bindings : List Binding
mouse_pad_bindings = bind "a" Btn.left ∷ bind "b" Btn.right ∷ []

unfoldable pub bound : List Binding → String → ℕ
bound [] name = 0
bound (b ∷ bs) name = if str_eq b.control name then b.code else bound bs name

unfoldable pub binding_of : List Binding → ℕ → Option String
binding_of [] code = none
binding_of (b ∷ bs) code = if b.code == code then some b.control else binding_of bs code

find_control-lt :
    (test : Control → Bool) (cs : List Control) (i k : ℕ)
    → find_control test cs i ≡ some k
    → k < i + length cs
unfolding find_control
find_control-lt test [] i k e = ground arith
find_control-lt test (c ∷ cs) i k e = ground (arith, find_control-lt test cs (suc i) k)

-- A control that is found by its name is one of the table.
pub control_named-lt :
    (name : String) (k : ℕ) → control_named (some name) ≡ some k → k < control_count
unfolding control_named
control_named-lt name k e = find_control-lt (λ c. str_eq c.name name) controls 0 k e
