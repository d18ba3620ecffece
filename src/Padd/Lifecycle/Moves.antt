-- ===== src/Padd/Lifecycle/Moves.antt =====
-- assign, set_mode, new_device and free_device leave every pad in step.
use Prim.Native.String.{String}
use anyconsole.Base.{
  ℕ, ◌≡◌, refl, ◌∙◌, ap, Bool, not, ◌||◌, if◌then◌else◌, Option, none, some, Option-cases, inl, inr,
}
use anyconsole.Base.Loop.{for_below_inv}
use anyconsole.Padd.Codes.{pads_max}
use anyconsole.Padd.Controls.{control_count}
use anyconsole.Padd.Modes.{Mode, mode_named, allows, mode_eq}
use anyconsole.Padd.Floats.{Floats, IsIeee}
use anyconsole.Padd.State.{Out, Pad, View, Padd, views, tell, set_device}
use anyconsole.Padd.Sync.Synced.{IsSynced}
use anyconsole.Padd.Devices.SameView.{
  SameView, SameView-refl, SameView-trans, tell-SameView, if-SameView,
}
use anyconsole.Padd.Devices.Drive.{SameView-IsSynced, if-IsSynced}
use anyconsole.Padd.Lifecycle.{
  pad_with_input, release, free_device, forget_motion, stop_sensors, pad_at, touch_active, touched,
  seat_eq, show_and_touch, set_pad, assign, set_device_mode, set_mode,
}
use anyconsole.Padd.Lifecycle.Release.{Released, release-Released, Released-SameView}
use anyconsole.Padd.Lifecycle.Synced.{IsCalm, set_device-IsSynced}

module _ ⦃F : Floats⦄ where
  forget_motion-SameView : (p : Option Pad) (s : Padd) → SameView s (forget_motion p s)
  unfolding forget_motion
  forget_motion-SameView none s = SameView-refl s
  forget_motion-SameView (some p) s =
      for_below_inv (λ n t. SameView s t) _
        (λ seat t v. SameView-trans v (
          if-SameView _
            (record {
              same_views = refl;
              same_rules = refl;
              same_plugs = refl;
              same_emitted = refl;
            })
            (SameView-refl t)))
        pads_max s (SameView-refl s)

  stop_sensors-SameView : (p : Option Pad) (s : Padd) → SameView s (stop_sensors p s)
  stop_sensors-SameView none s = SameView-refl s
  stop_sensors-SameView (some p) s = tell-SameView _ s

  touched-SameView : (p : Pad) (s : Padd) → SameView s (touched p s)
  unfolding touched
  touched-SameView p s = elim (Option-cases (s.device p.input).pad) [
    | inl e ↦ rw (e, touched) unseen
    | inr (seat, e) ↦
        rw (e, touched)
          (if-SameView _ unseen (
            SameView-trans unseen (
              SameView-trans (stop_sensors-SameView (pad_at s (s.motion_source seat)) _) (record {
                same_views = refl;
                same_rules = refl;
                same_plugs = refl;
                same_emitted = refl;
              }))))
  ]
    where
      unseen : SameView s (record s { pads = touch_active p.instance_id s.clock s.pads })
      unseen = (record {
        same_views = refl;
        same_rules = refl;
        same_plugs = refl;
        same_emitted = refl;
      })

  show_and_touch-SameView :
      (p : Option Pad) (seat : Option ℕ) (s : Padd) → SameView s (show_and_touch p seat s)
  show_and_touch-SameView none seat s = SameView-refl s
  show_and_touch-SameView (some p) seat s =
      SameView-trans (tell-SameView _ s) (touched-SameView p _)

module _ ⦃F : Floats⦄ (ieee : IsIeee F) where
  -- A device that has been released may be given another seat or mode.
  set_device-Released :
      (s t : Padd) (j : ℕ) (v : View)
      → IsCalm s.rules
      → Released s t j control_count
      → v.raw ≡ (views t j).raw
      → IsSynced (set_device t j (record (t.device j) { view = v }))
  set_device-Released s t j v calm r e =
      set_device-IsSynced ieee t j (record (t.device j) { view = v }) (rw r.same_rules calm)
        (λ c lt. ap (λ f. f c) e ∙ r.at_rest c lt) r.at_rest r.synced

  -- Given calm rules and pads in step with their devices, `assign` leaves every pad in step: a device
  -- that changes its seat takes no pressed control along, and leaves none behind.
  pub assign-IsSynced :
      (j : ℕ) (seat : Option ℕ) (s : Padd)
      → IsCalm s.rules
      → IsSynced s
      → IsSynced (assign j seat s)
  unfolding assign
  assign-IsSynced j seat s calm h =
      let p = pad_with_input s.pads j in
      let t = forget_motion p (release j s) in
      let r =
        Released-SameView (release-Released s j calm.no_dial h)
          (forget_motion-SameView p (release j s)) in
      let moved = set_pad j seat t in
      let shown = show_and_touch p seat moved in
      if-IsSynced {t = s} {u = tell Out.controllers shown} (seat_eq (s.device j).pad seat) (λ _. h)
        λ _.
          SameView-IsSynced {s = moved}
            (SameView-trans (show_and_touch-SameView p seat moved) (tell-SameView _ shown))
            (set_device-Released s t j (record (views t j) { pad = seat }) calm r refl)

  -- The mode that the name stands for, and the test that follows it.
  mode_change :
      (j : ℕ) (mode : Mode) (s : Padd) (b : Bool)
      → IsCalm s.rules
      → IsSynced s
      → IsSynced (
          if b
          then s
          else tell Out.controllers
              (set_device_mode j mode (forget_motion (pad_with_input s.pads j) (release j s))))
  mode_change j mode s b calm h =
      let p = pad_with_input s.pads j in
      let t = forget_motion p (release j s) in
      let r =
        Released-SameView (release-Released s j calm.no_dial h)
          (forget_motion-SameView p (release j s)) in
      let moved = set_device_mode j mode t in
      if-IsSynced {t = s} {u = tell Out.controllers moved} b (λ _. h)
        λ _.
          SameView-IsSynced {s = moved} (tell-SameView _ moved)
            (set_device-Released s t j (record (views t j) { mode = mode }) calm r refl)

  -- Given calm rules and pads in step with their devices, `set_mode` leaves every pad in step: a
  -- device that changes its mode takes no pressed control along, and leaves none behind.
  pub set_mode-IsSynced :
      (j : ℕ) (name : String) (s : Padd)
      → IsCalm s.rules
      → IsSynced s
      → IsSynced (set_mode j name s)
  unfolding set_mode
  set_mode-IsSynced j name s calm h = elim (Option-cases (mode_named name)) [
    | inl e ↦ rw (e, set_mode) h
    | inr (mode, e) ↦
        rw (e, set_mode)
          (mode_change j mode s
            (not (allows (s.device j).kind mode) || mode_eq mode (s.device j).mode) calm h)
  ]

  -- Given calm rules and pads in step with their devices, `free_device` leaves every pad in step: a
  -- device that goes leaves no pressed control behind.
  pub free_device-IsSynced :
      (j : ℕ) (s : Padd) → IsCalm s.rules → IsSynced s → IsSynced (free_device j s)
  unfolding free_device
  free_device-IsSynced j s calm h =
      let t = release j s in
      set_device-Released s t j (record (views t j) { id = 0 }) calm
        (release-Released s j calm.no_dial h) refl
