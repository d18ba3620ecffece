-- ===== src/Padd/Lifecycle/Synced.antt =====
-- The handlers that move a device to another seat or mode, that add or drop one, and that open the
-- menu, leave every pad in step: a device that is at rest makes no difference to a pad.
use anyconsole.Base.{
  ℕ, ◌<◌, ◌≡◌, refl, ◌∙◌, sym, ap, true, false, arith, ◌==◌, ==_iff, subst, if◌then◌else◌,
  Bool-cases, inl, inr,
}
use anyconsole.Base.Int.{ℤ}
use anyconsole.Base.Loop.{for_below_inv_bounded, for_below_congr}
use anyconsole.Padd.Codes.{input_devices_max}
use anyconsole.Padd.Controls.{control_count, rest}
use anyconsole.Padd.Floats.{Floats, IsIeee}
use anyconsole.Padd.State.{View, Rules, Device, Padd, views, set_device}
use anyconsole.Padd.Mapping.{stronger, effective}
use anyconsole.Padd.Mapping.Rest.{RoutesInRange, IsResting, effective-rest, stronger-rest, if_same}
use anyconsole.Padd.Sync.{sits, merge_device, merged}
use anyconsole.Padd.Sync.Synced.{IsSynced}

-- The rules under which a device at rest moves nothing: no dial, and routes from the table.
pub record IsCalm (rules : Rules) : Type 0 where
  pub no_dial : rules.dial ≡ false
  pub in_range : RoutesInRange rules.routes

module _ ⦃F : Floats⦄ where
  merge_device_congr :
      (rules : Rules) (f f' : ℕ → View) (seat i k : ℕ) (value : ℤ)
      → f' k ≡ f k
      → merge_device rules f' seat i k value ≡ merge_device rules f seat i k value
  unfolding merge_device
  merge_device_congr rules f f' seat i k value e =
      ap (λ v. if sits v seat then stronger i value (effective rules v i) else value) e

  merge_device-away :
      (rules : Rules) (f : ℕ → View) (seat i j : ℕ) (value : ℤ)
      → sits (f j) seat ≡ false
      → merge_device rules f seat i j value ≡ value
  unfolding merge_device
  merge_device-away rules f seat i j value away = rw (merge_device, away)

  views-set_device :
      (s : Padd) (j : ℕ) (d : Device) (k : ℕ)
      → views (set_device s j d) k ≡ (if j == k then d.view else views s k)
  views-set_device s j d k = ground arith

module _ ⦃F : Floats⦄ (ieee : IsIeee F) where
  merge_device-rest :
      (rules : Rules) (f : ℕ → View) (seat i j : ℕ) (value : ℤ)
      → IsCalm rules
      → i < control_count
      → IsResting (f j)
      → merge_device rules f seat i j value ≡ value
  unfolding merge_device
  merge_device-rest rules f seat i j value calm lt still = rw (
    merge_device,
    effective-rest ieee rules (f j) i calm.no_dial lt calm.in_range still,
    stronger-rest,
    if_same,
  )

  -- A seat of devices that are all at rest is at rest.
  pub merged-rest :
      (rules : Rules) (f : ℕ → View) (seat i : ℕ)
      → IsCalm rules
      → i < control_count
      → ((j : ℕ) → j < input_devices_max → sits (f j) seat ≡ true → IsResting (f j))
      → merged rules f seat i ≡ rest i
  unfolding merged
  merged-rest rules f seat i calm lt still =
      for_below_inv_bounded (λ j value. value ≡ rest i) (merge_device rules f seat i)
        input_devices_max (λ j value below e. round j value below ∙ e) input_devices_max (rest i)
        (omega arith) refl
    where
      round :
          (j : ℕ) (value : ℤ) → j < input_devices_max → merge_device rules f seat i j value ≡ value
      round j value below = elim (Bool-cases (sits (f j) seat)) [
        | inl here ↦ merge_device-rest rules f seat i j value calm lt (still j below here)
        | inr away ↦ merge_device-away rules f seat i j value away
      ]

  -- A device at rest may be replaced by another at rest, at whatever seat and in whatever mode.
  pub set_device-IsSynced :
      (s : Padd) (j : ℕ) (d : Device)
      → IsCalm s.rules
      → IsResting d.view
      → IsResting (views s j)
      → IsSynced s
      → IsSynced (set_device s j d)
  set_device-IsSynced s j d calm new old h = record {
    in_step = λ seat i p lt. h.in_step seat i p lt ∙ sym (merged_same seat i lt);
  }
    where
      round :
          (seat i : ℕ)
          → i < control_count
          → (k : ℕ) (value : ℤ)
          → merge_device s.rules (views (set_device s j d)) seat i k value
            ≡ merge_device s.rules (views s) seat i k value
      round seat i lt k value = elim (Bool-cases (j == k)) [
        | inl e ↦
            (let here = (==_iff j k).0 e in
              let at = views-set_device s j d k in
              merge_device-rest s.rules (views (set_device s j d)) seat i k value calm lt
                (λ c m. ap (λ v. v.raw c) at ∙ rw e (new c m))
              ∙ sym (
                  merge_device-rest s.rules (views s) seat i k value calm lt
                    (subst (λ n. IsResting (views s n)) here old)))
        | inr e ↦
            merge_device_congr s.rules (views s) (views (set_device s j d)) seat i k value
              (views-set_device s j d k ∙ rw e)
      ]

      merged_same :
          (seat i : ℕ)
          → i < control_count
          → merged s.rules (views (set_device s j d)) seat i ≡ merged s.rules (views s) seat i
      merged_same seat i lt =
          unfold merged in
          for_below_congr (merge_device s.rules (views (set_device s j d)) seat i)
            (merge_device s.rules (views s) seat i) (round seat i lt) input_devices_max (rest i)
