-- ===== src/Padd/Menu/Inputs.antt =====
-- The commands for the overlay's menu reach no pad, so every input leaves the pads in step.
use Prim.Native.String.{String}
use anyconsole.Base.{
  ℕ, ◌≡◌, refl, ◌∙◌, ap, Bool, true, false, not, ◌&&◌, ◌==◌, if◌then◌else◌, Option, none, some,
}
use anyconsole.Base.Int.{ℤ, pos, eqb_ℤ, is_nonzero}
use anyconsole.Padd.Codes.Ev
use anyconsole.Padd.Codes.Btn
use anyconsole.Padd.Controls.{control, control_index}
use anyconsole.Padd.Modes.{command_of, combo_partner}
use anyconsole.Padd.Floats.{Floats}
use anyconsole.Padd.State.{Rules, Padd}
use anyconsole.Padd.Mapping.{truth}
use anyconsole.Padd.Sync.Synced.{IsSynced}
use anyconsole.Padd.Devices.{drive_control}
use anyconsole.Padd.Devices.SameView.{
  SameView, SameView-refl, SameView-trans, if-SameView, tell-SameView, cross-SameView,
  set_device-SameView,
}
use anyconsole.Padd.Devices.Drive.{SameView-IsSynced, drive_control-IsSynced}
use anyconsole.Padd.Menu.{
  menu, menu_direction, menu_control, set_swallowed, pad_input, tilt, key_input, same_index, raw_at,
  pad_has_guide,
}

module _ ⦃F : Floats⦄ where
  pub menu-SameView :
      (j : ℕ) (command : String) (value : ℤ) (s : Padd) → SameView s (menu j command value s)
  unfolding menu
  menu-SameView j command value s = if-SameView _ (tell-SameView _ s) (SameView-refl s)

  menu_direction-SameView :
      (j : ℕ) (i : Option ℕ) (pressed : ℤ) (s : Padd) → SameView s (menu_direction j i pressed s)
  unfolding menu_direction
  menu_direction-SameView j none pressed s = SameView-refl s
  menu_direction-SameView j (some i) pressed s = menu-SameView j _ pressed s

  menu_control-SameView :
      (j i : ℕ) (before value : ℤ) (s : Padd) → SameView s (menu_control j i before value s)
  unfolding menu_control
  menu_control-SameView j i before value s =
      if-SameView _ (menu_direction-SameView j (some i) value s) (
        if-SameView _
          (cross-SameView i before value (λ k pressed. menu_direction j k (truth pressed))
            (λ k p t. menu_direction-SameView j k (truth p) t) s)
          (if-SameView _ (menu-SameView j _ _ s) (SameView-refl s)))

  either-IsSynced :
      {t u : Padd} (b : Bool) → IsSynced t → IsSynced u → IsSynced (if b then t else u)
  either-IsSynced true h k = h
  either-IsSynced false h k = k

  dial_after : {s t : Padd} → SameView s t → s.dial ≡ false → t.dial ≡ false
  dial_after v off = ap (λ (q : Rules). q.dial) v.same_rules ∙ off

  -- What follows an output that no pad sees.
  drive_after :
      {s t : Padd} (j : ℕ) (i : Option ℕ) (value : ℤ)
      → SameView s t
      → s.dial ≡ false
      → IsSynced s
      → IsSynced (drive_control j i value t)
  drive_after {t} j i value v off h =
      drive_control-IsSynced t j i value (dial_after v off) (SameView-IsSynced v h)

  -- Without a dial, an event of a controller leaves pads that were in step with their devices in step,
  -- on every branch: the guide button, a swallowed button, the two buttons that make a guide, a menu
  -- command and a value for the pad.
  pub pad_input-IsSynced :
      (j : ℕ) (i : Option ℕ) (value : ℤ) (s : Padd)
      → s.dial ≡ false
      → IsSynced s
      → IsSynced (pad_input j i value s)
  unfolding pad_input
  pad_input-IsSynced j none value s off h = h
  pad_input-IsSynced j (some i) value s off h =
      let d = s.device j in
      let partner = combo_partner (control i) in
      let combo =
        is_nonzero value
        && (not (partner == 0)
            && (is_nonzero (raw_at d (control_index Ev.key partner)) && not (pad_has_guide s j))) in
      either-IsSynced ((control i).code == Btn.mode)
        (SameView-IsSynced (menu-SameView j "guide" value s) h)
        (either-IsSynced (same_index d.swallowed i)
          (either-IsSynced (is_nonzero value) h (swallowed none (pos 0)))
          (either-IsSynced combo (swallowed (some i) (pos 1)) (
            either-IsSynced (not (eqb_ℤ (d.raw i) value))
              (drive_after j (some i) value (menu_control-SameView j i (d.raw i) value s) off h)
              h)))
    where
      swallowed : (c : Option ℕ) (v : ℤ) → IsSynced (menu j "guide" v (set_swallowed j c s))
      swallowed c v =
          SameView-IsSynced {s = s}
            (SameView-trans (set_device-SameView s j (record (s.device j) { swallowed = c }) refl)
              (menu-SameView j "guide" v (set_swallowed j c s)))
            h

  tilt-IsSynced :
      {s t : Padd} (j code : ℕ) (delta : ℤ)
      → SameView s t
      → s.dial ≡ false
      → IsSynced s
      → IsSynced (tilt j code delta t)
  unfolding tilt
  tilt-IsSynced j code delta v off h =
      SameView-IsSynced (tell-SameView _ _) (drive_after j _ _ v off h)

  menu_if-SameView :
      (b : Bool) (j : ℕ) (command : String) (value : ℤ) (s : Padd)
      → SameView s (if b then menu j command value s else s)
  menu_if-SameView b j command value s =
      if-SameView b (menu-SameView j command value s) (SameView-refl s)

  -- Without a dial, an event of a keyboard or a mouse leaves pads that were in step with their devices
  -- in step, on every branch: a command, an event passed on as it is, a key and a motion that drive a
  -- pad, and one that is dropped.
  pub key_input-IsSynced :
      (j kind code : ℕ) (value : ℤ) (s : Padd)
      → s.dial ≡ false
      → IsSynced s
      → IsSynced (key_input j kind code value s)
  unfolding key_input
  key_input-IsSynced j kind code value s off h =
      let pressing = kind == Ev.key && not (eqb_ℤ value (pos 2)) in
      let v = menu_if-SameView pressing j (command_of code) value s in
      either-IsSynced _ (SameView-IsSynced v h) (
        either-IsSynced _ (SameView-IsSynced (SameView-trans v (tell-SameView _ _)) h) (
          either-IsSynced _ (drive_after j _ value v off h)
            (either-IsSynced _ (tilt-IsSynced j code value v off h) (SameView-IsSynced v h))))
