-- ===== src/Padd/Menu.antt =====
-- guest/padd.c: what a pad, a keyboard or a mouse sends, on its way to the overlay's menu and to
-- drive_control (menu, menu_control, pad_has_guide, pad_input, tilt, rest_mice, key_input).
pub mod Inputs
pub mod Guide
use Prim.Native.String.{String}
use text.Mathlib.Text.{◌==◌ as str_eq}
use anyconsole.Base.{
  ℕ, zero, suc, ◌/◌, Bool, false, not, ◌&&◌, ◌||◌, Option, none, some, ◌==◌, if◌then◌else◌,
}
use anyconsole.Base.Int.{ℤ, pos, negsuc, ◌+ℤ◌, ◌*ℤ◌, ltb_ℤ, eqb_ℤ, is_nonzero}
use anyconsole.Base.Loop.{for_below}
use anyconsole.Padd.Codes.{input_devices_max, axis_center, axis_max}
use anyconsole.Padd.Codes.Ev
use anyconsole.Padd.Codes.Abs
use anyconsole.Padd.Codes.Rel
use anyconsole.Padd.Codes.Btn
use anyconsole.Padd.Controls.{
  control, is_stick, control_named, control_index, pressed_value, binding_of, keyboard_pad_bindings,
  mouse_pad_bindings,
}
use anyconsole.Padd.Modes.{mode_eq, is_keyboard, is_mouse, native, command_of, combo_partner}
use anyconsole.Padd.Floats.{Floats}
use anyconsole.Padd.State.{Out, Device, Padd, tell, set_device}
use anyconsole.Padd.Mapping.{truth, routed}
use anyconsole.Padd.Sync.{same_flag}
use anyconsole.Padd.Devices.{cross, drive_control}

abbrev pub same_index : Option ℕ → ℕ → Bool
same_index none i = false
same_index (some k) i = k == i

-- device->pad != NO_PAD && other->pad == device->pad
abbrev pub same_pad : Option ℕ → Option ℕ → Bool
same_pad none other = false
same_pad (some n) none = false
same_pad (some n) (some m) = m == n

-- C's division of an int by 32, towards 0.
abbrev pub neg_of : ℕ → ℤ
neg_of zero = pos 0
neg_of (suc n) = negsuc n

unfoldable pub div_32 : ℤ → ℤ
div_32 (pos n) = pos (n / 32)
div_32 (negsuc n) = neg_of (suc n / 32)

-- The stick value of a mouse's motion, kept within the axis.
unfoldable pub tilted : ℤ → ℤ
tilted delta =
    let value = axis_center +ℤ div_32 (delta *ℤ pos 127) in
    if ltb_ℤ value (pos 0) then pos 0 else if ltb_ℤ axis_max value then axis_max else value

module _ ⦃F : Floats⦄ where
  -- A device that plays keeps its commands from the overlay, but for the guide button.
  unfoldable pub menu : ℕ → String → ℤ → Padd → Padd
  menu j command value s =
      let v = (s.device j).view in
      if not (routed s.rules v) || str_eq command "guide"
      then tell (Out.press v.id command value) s
      else s

  -- The index is that of a control that direction_control finds.
  unfoldable pub menu_direction : ℕ → Option ℕ → ℤ → Padd → Padd
  menu_direction j none pressed s = s
  menu_direction j (some i) pressed s =
      let negative = ltb_ℤ (control i).direction (pos 0) in
      menu j
        (if (control i).code == Abs.hat0x
          then (if negative then "left" else "right")
          else (if negative then "up" else "down"))
        pressed s

  unfoldable pub menu_control : ℕ → ℕ → ℤ → ℤ → Padd → Padd
  menu_control j i before value s =
      if is_nonzero (control i).direction
      then menu_direction j (some i) value s
      else if is_stick i
      then cross i before value (λ k pressed. menu_direction j k (truth pressed)) s
      else if not (same_flag (pressed_value i before) (pressed_value i value))
      then menu j (command_of (control i).code) (truth (pressed_value i value)) s
      else s

  -- Whether the device, or another of its seat, has a guide button of its own.
  unfoldable pub pad_has_guide : Padd → ℕ → Bool
  pad_has_guide s j =
      for_below input_devices_max
        (λ k found.
          found
          || (not ((s.device k).id == 0)
              && (s.device k).guide
              && (k == j || same_pad (s.device j).pad (s.device k).pad)))
        false

  -- device->raw[control_index(EV_KEY, code)]
  unfoldable pub raw_at : Device → Option ℕ → ℤ
  raw_at d none = pos 0
  raw_at d (some i) = d.raw i

  abbrev pub set_swallowed : ℕ → Option ℕ → Padd → Padd
  set_swallowed j c s = set_device s j (record (s.device j) { swallowed = c })

  unfoldable pub pad_input : ℕ → Option ℕ → ℤ → Padd → Padd
  pad_input j none value s = s
  pad_input j (some i) value s =
      let d = s.device j in
      let c = control i in
      if c.code == Btn.mode
      then menu j "guide" value s
      else if same_index d.swallowed i
      then (if is_nonzero value then s else menu j "guide" (pos 0) (set_swallowed j none s))
      else if is_nonzero value
          && (not (combo_partner c == 0)
              && (is_nonzero (raw_at d (control_index Ev.key (combo_partner c)))
                  && not (pad_has_guide s j)))
      then menu j "guide" (pos 1) (set_swallowed j (some i) s)
      else if not (eqb_ℤ (d.raw i) value)
      then drive_control j (some i) value (menu_control j i (d.raw i) value s)
      else s

  unfoldable pub tilt : ℕ → ℕ → ℤ → Padd → Padd
  tilt j code delta s = tell Out.arm_rest (
      drive_control j (control_index Ev.abs (if code == Rel.x then Abs.rx else Abs.ry))
        (tilted delta) s)

  -- The mice have not moved for a while: their sticks go back to the centre.
  unfoldable pub rest_mice : Padd → Padd
  rest_mice s =
      for_below input_devices_max
        (λ j t.
          if (t.device j).id == 0 || not (is_mouse (t.device j).kind)
          then t
          else drive_control j (control_named (some "righty")) axis_center
              (drive_control j (control_named (some "rightx")) axis_center t))
        s

  -- An event of a keyboard or a mouse: type, code and value. A value of 2 repeats a key.
  unfoldable pub key_input : ℕ → ℕ → ℕ → ℤ → Padd → Padd
  key_input j kind code value s =
      let pressing = kind == Ev.key && not (eqb_ℤ value (pos 2)) in
      let is_meta = kind == Ev.key && str_eq (command_of code) "guide" in
      let t = if pressing then menu j (command_of code) value s else s in
      let d = t.device j in
      let bindings =
        if is_keyboard d.kind
        then binding_of keyboard_pad_bindings code
        else binding_of mouse_pad_bindings code in
      if not (routed t.rules d.view) || is_meta
      then t
      else if mode_eq d.mode (native d.kind)
      then tell (Out.key kind code value) t
      else if pressing
      then drive_control j (control_named bindings) value t
      else if kind == Ev.rel && (is_mouse d.kind && (code == Rel.x || code == Rel.y))
      then tilt j code value t
      else t
