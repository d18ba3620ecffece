-- ===== src/Padd/Devices/Drive.antt =====
-- drive_control keeps every pad in step with its devices.
use anyconsole.Base.{
  ℕ, ◌<◌, ◌≡◌, refl, ◌∙◌, sym, ap, Bool, true, false, not, ◌&&◌, arith, ltb, ◌==◌, if◌then◌else◌,
  ==_iff, lt→ltb, Option, none, some, Bool-cases, inl, inr, subst,
}
use anyconsole.Base.Int.{ℤ, eqb_ℤ}
use anyconsole.Padd.Controls.{control_count}
use anyconsole.Padd.Modes.{Mode, mode_eq, drives_pad}
use anyconsole.Padd.Floats.{Floats}
use anyconsole.Padd.State.{View, Rules, Padd, views, update}
use anyconsole.Padd.Mapping.{routed, effective}
use anyconsole.Padd.Sync.{sits, merged, sync_pad}
use anyconsole.Padd.Sync.Emitted.{emitted-sync_pad, is_plugged-sync_pad}
use anyconsole.Padd.Sync.Synced.{IsIdle, IsSynced, effective-IsIdle, merged_congr}
use anyconsole.Padd.Devices.{follow_dial, set_raw, sync_seat, emulate, drive_control}
use anyconsole.Padd.Devices.SameView.{SameView, emulate-SameView}

module _ ⦃F : Floats⦄ where
  pub SameView-IsSynced : {s t : Padd} → SameView s t → IsSynced s → IsSynced t
  SameView-IsSynced v h = record {
    in_step = λ seat i p lt.
        rw (v.same_emitted, v.same_rules, v.same_views)
          (h.in_step seat i (ap (λ f. f seat) (sym v.same_plugs) ∙ p) lt);
  }

  sits-set_raw :
      (s : Padd) (j i : ℕ) (value : ℤ) (k seat : ℕ)
      → sits (views (set_raw j i value s) k) seat ≡ sits (views s k) seat
  sits-set_raw s j i value k seat = ground arith

  pub views-set_raw_ne :
      (s : Padd) (j i : ℕ) (value : ℤ) (k : ℕ)
      → (j == k) ≡ false
      → views (set_raw j i value s) k ≡ views s k
  views-set_raw_ne s j i value k e = ground arith

  pub views-set_raw_self :
      (s : Padd) (j i : ℕ) (value : ℤ)
      → views (set_raw j i value s) j ≡ record (views s j) { raw = update (s.device j).raw i value }
  views-set_raw_self s j i value = ground arith

  -- Another seat's controls do not depend on the device.
  merged_elsewhere :
      (s : Padd) (j i : ℕ) (value : ℤ) (seat c : ℕ)
      → sits (views s j) seat ≡ false
      → merged s.rules (views (set_raw j i value s)) seat c ≡ merged s.rules (views s) seat c
  merged_elsewhere s j i value seat c away =
      merged_congr s.rules s.rules (views s) (views (set_raw j i value s)) seat c
        (λ k. sits-set_raw s j i value k seat)
        λ k here. elim (Bool-cases (j == k)) [
          | inl e ↦ cc (ap (λ n. sits (views s n) seat) ((==_iff j k).0 e))
          | inr e ↦ ap (λ v. effective s.rules v c) (views-set_raw_ne s j i value k e)
        ]

  effective-set_raw :
      (rules : Rules) (v : View) (i c : ℕ) (value : ℤ)
      → IsIdle rules v
      → effective rules (record v { raw = update v.raw i value }) c ≡ effective rules v c
  effective-set_raw rules v i c value idle =
      effective-IsIdle rules (record v { raw = update v.raw i value }) c (still idle)
      ∙ sym (effective-IsIdle rules v c idle)
    where
      still : IsIdle rules v → IsIdle rules (record v { raw = update v.raw i value })
      still h = unfold routed in h

  -- Nor do any on an idle device.
  merged_idle :
      (s : Padd) (j i : ℕ) (value : ℤ) (seat c : ℕ)
      → IsIdle s.rules (views s j)
      → merged s.rules (views (set_raw j i value s)) seat c ≡ merged s.rules (views s) seat c
  merged_idle s j i value seat c idle =
      merged_congr s.rules s.rules (views s) (views (set_raw j i value s)) seat c
        (λ k. sits-set_raw s j i value k seat)
        λ k here. elim (Bool-cases (j == k)) [
          | inl e ↦
              subst
                (λ n.
                  effective s.rules (views (set_raw j i value s) n) c
                  ≡ effective s.rules (views s n) c)
                ((==_iff j k).0 e)
                (ap (λ v. effective s.rules v c) (views-set_raw_self s j i value)
                  ∙ effective-set_raw s.rules (views s j) i c value idle)
          | inr e ↦ ap (λ v. effective s.rules v c) (views-set_raw_ne s j i value k e)
        ]

  -- Syncing the seat of the only device that changed is enough.
  in_step-sync_seat :
      (s : Padd) (j i seat : ℕ) (value : ℤ)
      → (s.device j).pad ≡ some seat
      → IsSynced s
      → (other c : ℕ)
      → (sync_pad s.rules (views (set_raw j i value s)) seat s.outputs).is_plugged other ≡ true
      → c < control_count
      → (sync_pad s.rules (views (set_raw j i value s)) seat s.outputs).emitted other c
        ≡ merged s.rules (views (set_raw j i value s)) other c
  in_step-sync_seat s j i seat value at h other c p lt = elim (Bool-cases (other == seat)) [
    | inl here ↦
        (let e = (==_iff other seat).0 here in ground (arith, told, was, lt→ltb c control_count lt))
    | inr there ↦
        ground (
          arith,
          told,
          h.in_step other c was lt,
          merged_elsewhere s j i value other c (ground arith),
        )
  ]
    where
      was : s.is_plugged other ≡ true
      was =
          ap (λ f. f other)
            (sym (is_plugged-sync_pad s.rules (views (set_raw j i value s)) seat s.outputs))
          ∙ p

      told : (sync_pad s.rules (views (set_raw j i value s)) seat s.outputs).emitted other c ≡ (
          if s.is_plugged seat && (other == seat && ltb c control_count)
          then merged s.rules (views (set_raw j i value s)) seat c
          else s.emitted other c)
      told = emitted-sync_pad s.rules (views (set_raw j i value s)) seat s.outputs other c

  idle-IsSynced :
      (s : Padd) (j i : ℕ) (value : ℤ)
      → IsIdle s.rules (views s j)
      → IsSynced s
      → IsSynced (set_raw j i value s)
  idle-IsSynced s j i value idle h = record {
    in_step = λ seat c p lt. h.in_step seat c p lt ∙ sym (merged_idle s j i value seat c idle);
  }

  sync_seat-IsSynced :
      (s : Padd) (j i : ℕ) (value : ℤ) (at : Option ℕ)
      → (s.device j).pad ≡ at
      → IsSynced s
      → IsSynced (sync_seat at (set_raw j i value s))
  unfolding routed
  sync_seat-IsSynced s j i value none e h = idle-IsSynced s j i value (ground arith) h
  sync_seat-IsSynced s j i value (some seat) e h = record {
    in_step = in_step-sync_seat s j i seat value e h;
  }

  pub if-IsSynced :
      {t u : Padd} (b : Bool)
      → (b ≡ true → IsSynced t)
      → (b ≡ false → IsSynced u)
      → IsSynced (if b then t else u)
  if-IsSynced true h k = h refl
  if-IsSynced false h k = k refl

  follow_dial_off : (i : ℕ) (value : ℤ) (s : Padd) → s.dial ≡ false → follow_dial i value s ≡ s
  unfolding follow_dial
  follow_dial_off i value s e = rw e

  turn_off :
      (b : Bool) (i : ℕ) (value : ℤ) (s : Padd)
      → s.dial ≡ false
      → (if b then follow_dial i value s else s) ≡ s
  turn_off true i value s e = follow_dial_off i value s e
  turn_off false i value s e = refl

  -- Without a dial, a control's new value leaves pads that were in step with their devices in step: it is sent on
  -- when the device drives its pad, and when it does not, no pad depends on it.
  pub drive_control-IsSynced :
      (s : Padd) (j : ℕ) (i : Option ℕ) (value : ℤ)
      → s.dial ≡ false
      → IsSynced s
      → IsSynced (drive_control j i value s)
  unfolding drive_control
  drive_control-IsSynced s j none value dial h = h
  drive_control-IsSynced s j (some i) value dial h =
      let d = s.device j in
      let held = set_raw j i value s in
      let sent = sync_seat d.pad held in
      let typed = emulate j i (d.raw i) value held in
      let moved = if drives_pad d.mode then sent else typed in
      rw (turn_off (mode_eq d.mode Mode.digital) i value held dial) (
        if-IsSynced {t = s} {u = if not (routed s.rules d.view) then held else moved}
          (eqb_ℤ (d.raw i) value) (λ same. h)
          λ new.
            if-IsSynced {t = held} {u = moved} (not (routed s.rules d.view))
              (λ off. idle-IsSynced s j i value (rw off) h)
              λ on.
                if-IsSynced {t = sent} {u = typed} (drives_pad d.mode)
                  (λ drives. sync_seat-IsSynced s j i value d.pad refl h)
                  λ emulates.
                    SameView-IsSynced {s = held} {t = typed}
                      (emulate-SameView j i (d.raw i) value held)
                      (idle-IsSynced s j i value (rw (on, emulates)) h))
