-- ===== src/Padd/Devices.antt =====
-- guest/padd.c: a new value of a control, on its way to the pad or to the emulated keyboard and
-- pointer (press_key, cross, follow_dial, move_pointer, tick_pointer, emulate, drive_control).
pub mod SameView
pub mod Drive
pub mod Frame
use Prim.Native.String.{String}
use anyconsole.Base.{
  ℕ, Bool, true, false, not, ◌&&◌, ◌||◌, Option, none, some, ◌==◌, if◌then◌else◌, List, [], ◌∷◌,
}
use anyconsole.Base.Int.{ℤ, pos, ltb_ℤ, eqb_ℤ, is_nonzero}
use anyconsole.Base.Loop.{for_below}
use anyconsole.Padd.Codes.{input_devices_max, axis_center}
use anyconsole.Padd.Codes.Ev
use anyconsole.Padd.Codes.Abs
use anyconsole.Padd.Codes.Rel
use anyconsole.Padd.Controls.{
  control, is_stick, control_named, is_left_stick, stick_direction, pressed_value,
  direction_control,
}
use anyconsole.Padd.Modes.{Mode, mode_eq, is_pad, drives_pad, emulated_code}
use anyconsole.Padd.Floats.{Floats}
use anyconsole.Padd.State.{Out, View, Rules, Device, Padd, update, views, tell, set_device}
use anyconsole.Padd.Mapping.{truth, deflection, routed}
use anyconsole.Padd.Sync.{same_flag, sync_pad}

module _ ⦃F : Floats⦄ where
  open F use {Double, of_int, add, sub, mul, div, neg, trunc, to_int, nonzero}

  -- A code of 0 is no key.
  unfoldable pub press_key : ℕ → Bool → Padd → Padd
  press_key code pressed s = if code == 0 then s else tell (Out.key Ev.key code (truth pressed)) s

  -- The index is that of a control that direction_control finds.
  unfoldable pub press_emulated_key : Option ℕ → Bool → Padd → Padd
  press_emulated_key none pressed s = s
  press_emulated_key (some i) pressed s =
      press_key (emulated_code (s.keymap i) Mode.keys i) pressed s

  -- A stick that leaves one direction for another releases the one and presses the other.
  unfoldable pub cross : ℕ → ℤ → ℤ → (Option ℕ → Bool → Padd → Padd) → Padd → Padd
  cross stick before value press s =
      let from = stick_direction before in
      let to = stick_direction value in
      let left = if is_nonzero from then press (direction_control stick from) false s else s in
      if not (is_left_stick stick) || eqb_ℤ from to
      then s
      else if is_nonzero to
      then press (direction_control stick to) true left
      else left

  -- One axis of move_pointer: the whole part of the travel is written, the rest is kept.
  unfoldable pub move_axis : ℕ → ℕ → ℕ → Double → Padd × Bool → Padd × Bool
  move_axis j axis code motion (s, moved) =
      let d = s.device j in
      let travelled = add (d.travel axis) motion in
      let whole = trunc travelled in
      let kept =
        set_device s j (record d { travel = update d.travel axis (sub travelled whole) }) in
      if nonzero whole
      then (tell (Out.key Ev.rel code (to_int whole)) kept, true)
      else (kept, moved)

  -- move_pointer with the three axes of tick_pointer. SYN_REPORT is event 0 of type 0.
  unfoldable pub move_pointer : ℕ → Double → Double → Double → Padd → Padd
  move_pointer j x y wheel s =
      let (t, moved) =
        move_axis j 2 Rel.wheel wheel (move_axis j 1 Rel.y y (move_axis j 0 Rel.x x (s, false))) in
      if moved then tell (Out.key 0 0 (pos 0)) t else t

  -- axis_control[], by SDL's name of the axis.
  unfoldable pub raw_of : Device → String → ℤ
  raw_of d name = elim (control_named (some name)) [ none ↦ pos 0 | some i ↦ d.raw i ]

  -- A round of the loop of tick_pointer; the flag is `pointing`.
  unfoldable pub tick_device : ℕ → Padd × Bool → Padd × Bool
  tick_device j (s, moving) =
      let d = s.device j in
      let x = mul (deflection (raw_of d "leftx")) s.pointer_speed in
      let y = mul (deflection (raw_of d "lefty")) s.pointer_speed in
      let wheel =
        div (mul (neg (deflection (raw_of d "righty"))) (of_int (pos 10))) (of_int (pos 60)) in
      if d.id == 0
        || not (routed s.rules d.view)
        || not (is_pad d.kind)
        || not (mode_eq d.mode Mode.pointer || mode_eq d.mode Mode.desktop)
      then (s, moving)
      else (move_pointer j x y wheel s, moving || (nonzero x || nonzero y || nonzero wheel))

  unfoldable pub tick_pointer : Padd → Padd
  tick_pointer s =
      let (t, moving) =
        for_below input_devices_max tick_device (record s { pointing = false }, false) in
      let u = record t { pointing = moving } in
      if same_flag moving s.pointing then u else tell (Out.arm_pointer moving) u

  -- The pointer crosses the canvas in 1.5 seconds of 60 ticks.
  unfoldable pub start_pointer : Padd → Padd
  start_pointer s =
      if s.pointing
      then s
      else tick_pointer (record s {
        pointer_speed =
            div (div (of_int s.canvas) (div (of_int (pos 3)) (of_int (pos 2)))) (of_int (pos 60));
      })

  unfoldable pub emulate : ℕ → ℕ → ℤ → ℤ → Padd → Padd
  emulate j i before value s =
      let mode = (s.device j).mode in
      if is_stick i && mode_eq mode Mode.keys
      then cross i before value press_emulated_key s
      else if is_stick i && not (eqb_ℤ value axis_center) && not ((control i).code == Abs.rx)
      then start_pointer s
      else if not (is_stick i) && not (same_flag (pressed_value i before) (pressed_value i value))
      then press_key (emulated_code (s.keymap i) mode i) (pressed_value i value) s
      else s

  -- A dial on a wheel of its own: the seat's relative and absolute sticks take turns.
  unfoldable pub follow_dial : ℕ → ℤ → Padd → Padd
  follow_dial i value s =
      let absolute = (control i).code == Abs.rx in
      if not s.dial
        || (not ((control i).code == Abs.x) && not absolute)
        || not (is_nonzero (stick_direction value))
        || same_flag absolute s.dial_absolute
      then s
      else tell (Out.dial absolute)
          (record s { rules = record s.rules { dial_absolute = absolute } })

  abbrev pub set_raw : ℕ → ℕ → ℤ → Padd → Padd
  set_raw j i value s =
      let d = s.device j in
      set_device s j (record d { view = record d.view { raw = update d.raw i value } })

  abbrev pub sync_seat : Option ℕ → Padd → Padd
  sync_seat none s = s
  sync_seat (some seat) s = record s { outputs = sync_pad s.rules (views s) seat s.outputs }

  unfoldable pub drive_control : ℕ → Option ℕ → ℤ → Padd → Padd
  drive_control j none value s = s
  drive_control j (some i) value s =
      let d = s.device j in
      let before = d.raw i in
      let held = set_raw j i value s in
      let turned = if mode_eq d.mode Mode.digital then follow_dial i value held else held in
      if eqb_ℤ before value
      then s
      else if not (routed s.rules d.view)
      then held
      else if drives_pad d.mode
      then sync_seat d.pad turned
      else emulate j i before value turned
