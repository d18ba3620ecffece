-- ===== src/Padd/Sync/Synced.antt =====
-- A state whose pads are in step with its devices, and when the merged value of a control is the same
-- over two device tables.
use anyconsole.Base.{ℕ, ◌<◌, ◌≡◌, ap, true, not, ◌||◌, Bool-cases, inl, inr}
use anyconsole.Base.Int.{ℤ}
use anyconsole.Base.Loop.{for_below_congr}
use anyconsole.Padd.Codes.{input_devices_max}
use anyconsole.Padd.Controls.{control_count, rest}
use anyconsole.Padd.Modes.{drives_pad}
use anyconsole.Padd.Floats.{Floats}
use anyconsole.Padd.State.{View, Rules, Padd, views}
use anyconsole.Padd.Mapping.{stronger, routed, effective}
use anyconsole.Padd.Sync.{sits, merge_device, merged}

-- A device adds nothing of its own to a pad: it has no seat, the menu is open, or it emulates.
abbrev pub IsIdle : Rules → View → Type 0
IsIdle rules v = (not (routed rules v) || not (drives_pad v.mode)) ≡ true

module _ ⦃F : Floats⦄ where
  -- Every control of every plugged seat was last told the merged value of the seat's devices.
  pub record IsSynced (s : Padd) : Type 0 where
    pub in_step :
        (seat i : ℕ)
        → s.is_plugged seat ≡ true
        → i < control_count
        → s.emitted seat i ≡ merged s.rules (views s) seat i

  pub effective-IsIdle :
      (rules : Rules) (v : View) (i : ℕ) → IsIdle rules v → effective rules v i ≡ rest i
  unfolding effective
  effective-IsIdle rules v i h = rw h

  round_congr :
      (r r' : Rules) (f f' : ℕ → View) (seat i j : ℕ) (value : ℤ)
      → sits (f' j) seat ≡ sits (f j) seat
      → (sits (f j) seat ≡ true → effective r' (f' j) i ≡ effective r (f j) i)
      → merge_device r' f' seat i j value ≡ merge_device r f seat i j value
  unfolding merge_device
  round_congr r r' f f' seat i j value on eff = elim (Bool-cases (sits (f j) seat)) [
    | inl here ↦ rw (on, here) (ap (stronger i value) (eff here))
    | inr away ↦ rw (on, away)
  ]

  -- Two tables that put the same devices on a seat, with the same values, give it the same controls.
  pub merged_congr :
      (r r' : Rules) (f f' : ℕ → View) (seat i : ℕ)
      → ((j : ℕ) → sits (f' j) seat ≡ sits (f j) seat)
      → ((j : ℕ) → sits (f j) seat ≡ true → effective r' (f' j) i ≡ effective r (f j) i)
      → merged r' f' seat i ≡ merged r f seat i
  unfolding merged
  merged_congr r r' f f' seat i on eff =
      for_below_congr (merge_device r' f' seat i) (merge_device r f seat i) round input_devices_max
        (rest i)
    where
      round :
          (j : ℕ) (value : ℤ) → merge_device r' f' seat i j value ≡ merge_device r f seat i j value
      round j value = round_congr r r' f f' seat i j value (on j) (eff j)
