-- ===== src/Padd/Devices/Frame.antt =====
-- What drive_control leaves of the device table and of the rules.
use mathlib.Core.Path.{fun_ext}
use anyconsole.Base.{
  ℕ, ◌≡◌, refl, ◌∙◌, Bool, true, false, not, arith, if◌then◌else◌, Option, none, some,
}
use anyconsole.Base.Int.{ℤ, eqb_ℤ, eqb_ℤ→eq}
use anyconsole.Padd.Modes.{Mode, mode_eq, drives_pad}
use anyconsole.Padd.Floats.{Floats}
use anyconsole.Padd.State.{Padd, views, update}
use anyconsole.Padd.Mapping.{routed}
use anyconsole.Padd.Sync.Emitted.{is_plugged-sync_pad}
use anyconsole.Padd.Devices.{follow_dial, set_raw, sync_seat, drive_control}
use anyconsole.Padd.Devices.SameView.{emulate-SameView}

if-pick {ℓ κ} :
    {A : Type ℓ} {B : Type κ} (f : A → B) (b : Bool) (x y : A) {z : B}
    → (b ≡ true → f x ≡ z)
    → (b ≡ false → f y ≡ z)
    → f (if b then x else y) ≡ z
if-pick f true x y h k = h refl
if-pick f false x y h k = k refl

update_same : (f : ℕ → ℤ) (i : ℕ) (value : ℤ) → f i ≡ value → update f i value ≡ f
update_same f i value e = fun_ext λ k. ground arith

module _ ⦃F : Floats⦄ where
  views-follow_dial : (i : ℕ) (value : ℤ) (s : Padd) → views (follow_dial i value s) ≡ views s
  unfolding follow_dial
  views-follow_dial i value s = if-pick views _ _ _ (λ _. refl) (λ _. refl)

  views-turned :
      (b : Bool) (i : ℕ) (value : ℤ) (s : Padd)
      → views (if b then follow_dial i value s else s) ≡ views s
  views-turned true i value s = views-follow_dial i value s
  views-turned false i value s = refl

  views-sync_seat : (at : Option ℕ) (s : Padd) → views (sync_seat at s) ≡ views s
  views-sync_seat none s = refl
  views-sync_seat (some seat) s = refl

  views-set_raw_same :
      (s : Padd) (j i : ℕ) (value : ℤ)
      → eqb_ℤ ((s.device j).raw i) value ≡ true
      → views s ≡ views (set_raw j i value s)
  views-set_raw_same s j i value e = fun_ext λ k.
      ground (arith, update_same (s.device j).raw i value (eqb_ℤ→eq ((s.device j).raw i) value e))

  -- The value is recorded, and nothing else of any device's view changes.
  pub views-drive_control :
      (s : Padd) (j i : ℕ) (value : ℤ)
      → views (drive_control j (some i) value s) ≡ views (set_raw j i value s)
  unfolding drive_control
  views-drive_control s j i value =
      let d = s.device j in
      let held = set_raw j i value s in
      let turned = if mode_eq d.mode Mode.digital then follow_dial i value held else held in
      let recorded = views-turned (mode_eq d.mode Mode.digital) i value held in
      if-pick views (eqb_ℤ (d.raw i) value) _ _ (views-set_raw_same s j i value) λ _.
        if-pick views (not (routed s.rules d.view)) _ _ (λ _. refl)
          λ _.
            if-pick views (drives_pad d.mode) _ _ (λ _. views-sync_seat d.pad turned ∙ recorded)
              λ _. (emulate-SameView j i (d.raw i) value turned).same_views ∙ recorded

  rules-sync_seat : (at : Option ℕ) (s : Padd) → (sync_seat at s).rules ≡ s.rules
  rules-sync_seat none s = refl
  rules-sync_seat (some seat) s = refl

  rules-turned :
      (b : Bool) (i : ℕ) (value : ℤ) (s : Padd)
      → s.dial ≡ false
      → (if b then follow_dial i value s else s).rules ≡ s.rules
  unfolding follow_dial
  rules-turned true i value s off = rw off
  rules-turned false i value s off = refl

  -- Without a dial no input changes the rules.
  pub rules-drive_control :
      (s : Padd) (j i : ℕ) (value : ℤ)
      → s.dial ≡ false
      → (drive_control j (some i) value s).rules ≡ s.rules
  unfolding drive_control
  rules-drive_control s j i value off =
      let d = s.device j in
      let held = set_raw j i value s in
      let turned = if mode_eq d.mode Mode.digital then follow_dial i value held else held in
      let kept = rules-turned (mode_eq d.mode Mode.digital) i value held off in
      if-pick (λ (t : Padd). t.rules) (eqb_ℤ (d.raw i) value) _ _ (λ _. refl)
        λ _.
          if-pick (λ (t : Padd). t.rules) (not (routed s.rules d.view)) _ _ (λ _. refl)
            λ _.
              if-pick (λ (t : Padd). t.rules) (drives_pad d.mode) _ _
                (λ _. rules-sync_seat d.pad turned ∙ kept)
                λ _. (emulate-SameView j i (d.raw i) value turned).same_rules ∙ kept

  plugs-sync_seat : (at : Option ℕ) (s : Padd) → (sync_seat at s).is_plugged ≡ s.is_plugged
  plugs-sync_seat none s = refl
  plugs-sync_seat (some seat) s = is_plugged-sync_pad s.rules (views s) seat s.outputs

  plugs-turned :
      (b : Bool) (i : ℕ) (value : ℤ) (s : Padd)
      → (if b then follow_dial i value s else s).is_plugged ≡ s.is_plugged
  unfolding follow_dial
  plugs-turned true i value s = if-pick (λ (t : Padd). t.is_plugged) _ _ _ (λ _. refl) (λ _. refl)
  plugs-turned false i value s = refl

  -- No input plugs a pad or pulls it.
  pub is_plugged-drive_control :
      (s : Padd) (j i : ℕ) (value : ℤ)
      → (drive_control j (some i) value s).is_plugged ≡ s.is_plugged
  unfolding drive_control
  is_plugged-drive_control s j i value =
      let d = s.device j in
      let held = set_raw j i value s in
      let turned = if mode_eq d.mode Mode.digital then follow_dial i value held else held in
      let kept = plugs-turned (mode_eq d.mode Mode.digital) i value held in
      if-pick (λ (t : Padd). t.is_plugged) (eqb_ℤ (d.raw i) value) _ _ (λ _. refl)
        λ _.
          if-pick (λ (t : Padd). t.is_plugged) (not (routed s.rules d.view)) _ _ (λ _. refl)
            λ _.
              if-pick (λ (t : Padd). t.is_plugged) (drives_pad d.mode) _ _
                (λ _. plugs-sync_seat d.pad turned ∙ kept)
                λ _. (emulate-SameView j i (d.raw i) value turned).same_plugs ∙ kept
