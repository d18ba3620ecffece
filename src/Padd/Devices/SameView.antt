-- ===== src/Padd/Devices/SameView.antt =====
-- The parts of padd's state that pads do not depend on: what the emulated keyboard and pointer do
-- leaves every pad, and all that decides its values, alone.
use mathlib.Core.Path.{fun_ext}
use anyconsole.Base.{
  ℕ, Bool, true, false, ◌≡◌, refl, ◌∙◌, arith, Option, none, some, ◌==◌, if◌then◌else◌,
}
use anyconsole.Base.Int.{ℤ, is_nonzero}
use anyconsole.Base.Loop.{for_below, for_below_inv}
use anyconsole.Padd.Codes.{input_devices_max}
use anyconsole.Padd.Codes.Rel
use anyconsole.Padd.Controls.{stick_direction, direction_control}
use anyconsole.Padd.Floats.{Floats}
use anyconsole.Padd.State.{Out, Device, Padd, update, views, tell, set_device}
use anyconsole.Padd.Devices.{
  press_key, press_emulated_key, cross, move_axis, move_pointer, tick_device, tick_pointer,
  start_pointer, emulate,
}

module _ ⦃F : Floats⦄ where
  open F use {Double, add, sub, trunc}

  pub record SameView (s t : Padd) : Type 0 where
    pub same_views : views t ≡ views s
    pub same_rules : t.rules ≡ s.rules
    pub same_plugs : t.is_plugged ≡ s.is_plugged
    pub same_emitted : t.emitted ≡ s.emitted

  pub SameView-refl : (s : Padd) → SameView s s
  SameView-refl s = record {
    same_views = refl;
    same_rules = refl;
    same_plugs = refl;
    same_emitted = refl;
  }

  pub SameView-trans : {s t u : Padd} → SameView s t → SameView t u → SameView s u
  SameView-trans a b = record {
    same_views = b.same_views ∙ a.same_views;
    same_rules = b.same_rules ∙ a.same_rules;
    same_plugs = b.same_plugs ∙ a.same_plugs;
    same_emitted = b.same_emitted ∙ a.same_emitted;
  }

  pub if-SameView :
      {s t u : Padd} (b : Bool) → SameView s t → SameView s u → SameView s (if b then t else u)
  if-SameView true h k = h
  if-SameView false h k = k

  pub tell-SameView : (o : Out) (s : Padd) → SameView s (tell o s)
  tell-SameView o s = record {
    same_views = refl;
    same_rules = refl;
    same_plugs = refl;
    same_emitted = refl;
  }

  pub press_key-SameView :
      (code : ℕ) (pressed : Bool) (s : Padd) → SameView s (press_key code pressed s)
  unfolding press_key
  press_key-SameView code pressed s = if-SameView (code == 0) (SameView-refl s) (tell-SameView _ s)

  press_emulated_key-SameView :
      (i : Option ℕ) (pressed : Bool) (s : Padd) → SameView s (press_emulated_key i pressed s)
  unfolding press_emulated_key
  press_emulated_key-SameView none pressed s = SameView-refl s
  press_emulated_key-SameView (some i) pressed s = press_key-SameView _ pressed s

  pub cross-SameView :
      (stick : ℕ) (before value : ℤ) (press : Option ℕ → Bool → Padd → Padd)
      → ((i : Option ℕ) (p : Bool) (t : Padd) → SameView t (press i p t))
      → (s : Padd) → SameView s (cross stick before value press s)
  unfolding cross
  cross-SameView stick before value press keep s =
      if-SameView _ (SameView-refl s) (if-SameView _ (SameView-trans left (keep _ true _)) left)
    where
      left : SameView s (
          if is_nonzero (stick_direction before)
          then press (direction_control stick (stick_direction before)) false s
          else s)
      left = if-SameView _ (keep _ false s) (SameView-refl s)

  -- A device that changes but for its view.
  pub set_device-SameView :
      (s : Padd) (j : ℕ) (d : Device) → d.view ≡ (s.device j).view → SameView s (set_device s j d)
  set_device-SameView s j d e = record {
    same_views = fun_ext λ k. ground arith;
    same_rules = refl;
    same_plugs = refl;
    same_emitted = refl;
  }

  if_pair-SameView :
      {s : Padd} (b : Bool) (p q : Padd × Bool)
      → SameView s p.0
      → SameView s q.0
      → SameView s (if b then p else q).0
  if_pair-SameView true p q h k = h
  if_pair-SameView false p q h k = k

  move_axis-SameView :
      (j axis code : ℕ) (motion : Double) (p : Padd × Bool)
      → SameView p.0 (move_axis j axis code motion p).0
  unfolding move_axis
  move_axis-SameView j axis code motion (s, moved) =
      let d = s.device j in
      let travelled = add (d.travel axis) motion in
      let left = update d.travel axis (sub travelled (trunc travelled)) in
      let kept = set_device-SameView s j (record d { travel = left }) refl in
      if_pair-SameView _ _ _ (SameView-trans kept (tell-SameView _ _)) kept

  move_pointer-SameView :
      (j : ℕ) (x y wheel : Double) (s : Padd) → SameView s (move_pointer j x y wheel s)
  unfolding move_pointer
  move_pointer-SameView j x y wheel s =
      if-SameView _ (SameView-trans moved (tell-SameView _ _)) moved
    where
      moved :
          SameView s
            (move_axis j 2 Rel.wheel wheel
              (move_axis j 1 Rel.y y (move_axis j 0 Rel.x x (s, false)))).0
      moved =
          SameView-trans
            (SameView-trans (move_axis-SameView j 0 Rel.x x (s, false))
              (move_axis-SameView j 1 Rel.y y _))
            (move_axis-SameView j 2 Rel.wheel wheel _)

  tick_device-SameView : (j : ℕ) (p : Padd × Bool) → SameView p.0 (tick_device j p).0
  unfolding tick_device
  tick_device-SameView j (s, moving) =
      if_pair-SameView _ _ _ (SameView-refl s) (move_pointer-SameView j _ _ _ s)

  tick_pointer-SameView : (s : Padd) → SameView s (tick_pointer s)
  unfolding tick_pointer
  tick_pointer-SameView s =
      if-SameView _
        (SameView-trans ticked
          (record { same_views = refl; same_rules = refl; same_plugs = refl; same_emitted = refl }))
        (SameView-trans ticked
          (record { same_views = refl; same_rules = refl; same_plugs = refl; same_emitted = refl }))
    where
      ticked :
          SameView s
            (for_below input_devices_max tick_device (record s { pointing = false }, false)).0
      ticked =
          for_below_inv (λ j p. SameView s p.0) tick_device
            (λ j p h. SameView-trans h (tick_device-SameView j p)) input_devices_max
            (record s { pointing = false }, false)
            (record {
              same_views = refl;
              same_rules = refl;
              same_plugs = refl;
              same_emitted = refl;
            })

  start_pointer-SameView : (s : Padd) → SameView s (start_pointer s)
  unfolding start_pointer
  start_pointer-SameView s = if-SameView s.pointing (SameView-refl s) (
      SameView-trans
        (record { same_views = refl; same_rules = refl; same_plugs = refl; same_emitted = refl })
        (tick_pointer-SameView _))

  -- Whatever the emulated keyboard and pointer are told, no pad is.
  pub emulate-SameView :
      (j i : ℕ) (before value : ℤ) (s : Padd) → SameView s (emulate j i before value s)
  unfolding emulate
  emulate-SameView j i before value s =
      if-SameView _ (cross-SameView i before value press_emulated_key press_emulated_key-SameView s)
        (if-SameView _ (start_pointer-SameView s)
          (if-SameView _ (press_key-SameView _ _ s) (SameView-refl s)))
