-- ===== src/Padd/Lifecycle/Release.antt =====
-- After `release` every control of the device is at rest, and the pads are still in step.
use anyconsole.Base.{
  ℕ, suc, ◌<◌, ◌≡◌, refl, ◌∙◌, ap, false, arith, ◌==◌, Option, none, some, List, [], ◌∷◌,
}
use anyconsole.Base.Int.{ℤ}
use anyconsole.Base.Loop.{for_below_inv}
use anyconsole.Padd.Controls.{control_count, rest}
use anyconsole.Padd.Floats.{Floats}
use anyconsole.Padd.State.{Rules, Padd, views, update}
use anyconsole.Padd.Sync.Synced.{IsSynced}
use anyconsole.Padd.Devices.{set_raw, drive_control}
use anyconsole.Padd.Devices.SameView.{
  SameView, SameView-refl, SameView-trans, tell-SameView, if-SameView, set_device-SameView,
}
use anyconsole.Padd.Devices.Drive.{
  SameView-IsSynced, drive_control-IsSynced, views-set_raw_ne, views-set_raw_self,
}
use anyconsole.Padd.Devices.Frame.{
  views-drive_control, rules-drive_control, is_plugged-drive_control,
}
use anyconsole.Padd.Lifecycle.{press_held, release_keys, release_controls, release}

module _ ⦃F : Floats⦄ where
  -- From `s` to `t` the pads stay in step, the first `n` controls of the device have come to rest, and
  -- no other device's view changes, nor the device's id, seat or mode, nor the rules, nor which pads are plugged.
  pub record Released (s t : Padd) (j n : ℕ) : Type 0 where
    pub synced : IsSynced t
    pub same_rules : t.rules ≡ s.rules
    pub same_plugs : t.is_plugged ≡ s.is_plugged
    pub others : (k : ℕ) → (j == k) ≡ false → views t k ≡ views s k
    pub same_id : (views t j).id ≡ (views s j).id
    pub same_pad : (views t j).pad ≡ (views s j).pad
    pub same_mode : (views t j).mode ≡ (views s j).mode
    pub at_rest : (c : ℕ) → c < n → (views t j).raw c ≡ rest c

  view_after :
      (s : Padd) (j i : ℕ) (value : ℤ) (k : ℕ)
      → views (drive_control j (some i) value s) k ≡ views (set_raw j i value s) k
  view_after s j i value k = ap (λ f. f k) (views-drive_control s j i value)

  drive-Released :
      (s : Padd) (j : ℕ)
      → s.dial ≡ false
      → (i : ℕ) (t : Padd) → Released s t j i
      → Released s (drive_control j (some i) (rest i) t) j (suc i)
  drive-Released s j off i t r = record {
    synced = drive_control-IsSynced t j (some i) (rest i) dial r.synced;
    same_rules = rules-drive_control t j i (rest i) dial ∙ r.same_rules;
    same_plugs = is_plugged-drive_control t j i (rest i) ∙ r.same_plugs;
    others = λ k ne.
        view_after t j i (rest i) k ∙ (views-set_raw_ne t j i (rest i) k ne ∙ r.others k ne);
    same_id = ap (λ v. v.id) (view_after t j i (rest i) j) ∙ (ap (λ v. v.id) self ∙ r.same_id);
    same_pad = ap (λ v. v.pad) (view_after t j i (rest i) j) ∙ (ap (λ v. v.pad) self ∙ r.same_pad);
    same_mode =
        ap (λ v. v.mode) (view_after t j i (rest i) j) ∙ (ap (λ v. v.mode) self ∙ r.same_mode);
    at_rest = λ c lt.
        ap (λ v. v.raw c) (view_after t j i (rest i) j)
        ∙ (ap (λ v. v.raw c) self ∙ ground (arith, r.at_rest c));
  }
    where
      dial : t.dial ≡ false
      dial = ap (λ (q : Rules). q.dial) r.same_rules ∙ off

      self :
          views (set_raw j i (rest i) t) j
          ≡ record (views t j) { raw = update (t.device j).raw i (rest i) }
      self = views-set_raw_self t j i (rest i)

  press_held-SameView : (codes : List ℕ) (s : Padd) → SameView s (press_held codes s)
  unfolding press_held
  press_held-SameView [] s = SameView-refl s
  press_held-SameView (code ∷ codes) s =
      SameView-trans (tell-SameView _ s) (press_held-SameView codes _)

  release_keys-SameView : (j : ℕ) (s : Padd) → SameView s (release_keys j s)
  unfolding release_keys
  release_keys-SameView j s = released (s.device j).evdev refl
    where
      released :
          (held : Option (List ℕ)) → (s.device j).evdev ≡ held → SameView s (release_keys j s)
      released none e = rw (e, release_keys) (SameView-refl s)
      released (some codes) e =
          rw (e, release_keys) (if-SameView _ (SameView-refl s) (press_held-SameView codes s))

  -- A view that stays the same keeps a device where it was.
  SameView-Released : {s t : Padd} (j : ℕ) → SameView s t → IsSynced s → Released s t j 0
  SameView-Released j v h = record {
    synced = SameView-IsSynced v h;
    same_rules = v.same_rules;
    same_plugs = v.same_plugs;
    others = λ k ne. ap (λ f. f k) v.same_views;
    same_id = ap (λ f. (f j).id) v.same_views;
    same_pad = ap (λ f. (f j).pad) v.same_views;
    same_mode = ap (λ f. (f j).mode) v.same_views;
    at_rest = λ c lt. absurd (omega arith);
  }

  pub Released-SameView :
      {s t u : Padd} {j n : ℕ} → Released s t j n → SameView t u → Released s u j n
  Released-SameView {j} r v = record {
    synced = SameView-IsSynced v r.synced;
    same_rules = v.same_rules ∙ r.same_rules;
    same_plugs = v.same_plugs ∙ r.same_plugs;
    others = λ k ne. ap (λ f. f k) v.same_views ∙ r.others k ne;
    same_id = ap (λ f. (f j).id) v.same_views ∙ r.same_id;
    same_pad = ap (λ f. (f j).pad) v.same_views ∙ r.same_pad;
    same_mode = ap (λ f. (f j).mode) v.same_views ∙ r.same_mode;
    at_rest = λ c lt. ap (λ f. (f j).raw c) v.same_views ∙ r.at_rest c lt;
  }

  -- Without a dial and with the pads in step, `release` brings every control of the device to rest and
  -- keeps the pads in step, and leaves every other
  -- device's view, the device's own id, seat and mode, the rules and the plugs as they were.
  pub release-Released :
      (s : Padd) (j : ℕ) → s.dial ≡ false → IsSynced s → Released s (release j s) j control_count
  unfolding release release_controls
  release-Released s j off h =
      Released-SameView
        (for_below_inv (λ n t. Released s t j n) (λ i t. drive_control j (some i) (rest i) t)
          (drive-Released s j off) control_count (release_keys j s)
          (SameView-Released j (release_keys-SameView j s) h))
        (set_device-SameView _ j _ refl)
