-- ===== src/Padd/Menu/Guide.antt =====
-- The two buttons that stand for a guide button on a pad that has none, and the stick of a mouse.
use mathlib.Core.Path.{fun_ext}
use anyconsole.Base.{
  ℕ, ◌≡◌, refl, ◌∙◌, ap, ltb, Bool, true, false, not, ◌||◌, arith, ◌==◌, ◌≤◌, if◌then◌else◌, none,
  some, Bool-cases, inl, inr,
}
use anyconsole.Base.Int.{ℤ, pos, negsuc, ltb_ℤ, ◌+ℤ◌, ◌*ℤ◌, is_nonzero}
use anyconsole.Padd.Codes.{axis_center, axis_max}
use anyconsole.Padd.Codes.Ev
use anyconsole.Padd.Codes.Btn
use anyconsole.Padd.Controls.{control, control_index}
use anyconsole.Padd.Modes.{combo_partner}
use anyconsole.Padd.Floats.{Floats}
use anyconsole.Padd.State.{Out, Device, Padd, update, tell}
use anyconsole.Padd.Mapping.{routed}
use anyconsole.Padd.Menu.{
  menu, tilted, div_32, same_index, raw_at, pad_has_guide, set_swallowed, pad_input,
}

within :
    (value : ℤ)
    → (n : ℕ) × ((if ltb_ℤ value (pos 0)
          then pos 0
          else if ltb_ℤ axis_max value
          then axis_max
          else value)
        ≡ pos n)
      × (n ≤ 255)
within (pos n) = elim (Bool-cases (ltb 255 n)) [
  | inl e ↦ (255, ground arith, omega arith)
  | inr e ↦ (n, ground arith, ground arith)
]
within (negsuc n) = (0, ground arith, omega arith)

-- Whatever a mouse's motion, the value of the stick that it tilts is one of the axis, 0 to 255.
pub tilted-bounded : (delta : ℤ) → (n : ℕ) × (tilted delta ≡ pos n) × (n ≤ 255)
unfolding tilted
tilted-bounded delta = within (axis_center +ℤ div_32 (delta *ℤ pos 127))

==-refl : (i : ℕ) → (i == i) ≡ true
==-refl i = ground arith

update_self {ℓ} : {A : Type ℓ} (f : ℕ → A) (i : ℕ) (a : A) → update f i a i ≡ a
update_self f i a = rw (==-refl i) refl

update_twice {ℓ} :
    {A : Type ℓ} (f : ℕ → A) (i : ℕ) (a b : A) → update (update f i a) i b ≡ update f i b
update_twice f i a b = fun_ext λ k. ground arith

if_same-true {ℓ} : {A : Type ℓ} (b : Bool) (x y : A) → (if not b || true then x else y) ≡ x
if_same-true true x y = refl
if_same-true false x y = refl

module _ ⦃F : Floats⦄ where
  menu_guide :
      (j : ℕ) (value : ℤ) (s : Padd)
      → menu j "guide" value s ≡ tell (Out.press (s.device j).id "guide" value) s
  unfolding menu
  menu_guide j value s = if_same-true (routed s.rules (s.device j).view) _ _

  -- The press of the second button while the first is held, on a seat without a guide button.
  pub record IsCombo (s : Padd) (j i : ℕ) : Type 0 where
    pub is_no_guide : ((control i).code == Btn.mode) ≡ false
    pub has_partner : (combo_partner (control i) == 0) ≡ false
    pub partner_held :
        is_nonzero (raw_at (s.device j) (control_index Ev.key (combo_partner (control i)))) ≡ true
    pub not_swallowed : same_index (s.device j).swallowed i ≡ false
    pub guideless : pad_has_guide s j ≡ false

  combo_press :
      (s : Padd) (j i : ℕ) (value : ℤ)
      → IsCombo s j i
      → is_nonzero value ≡ true
      → pad_input j (some i) value s ≡ menu j "guide" (pos 1) (set_swallowed j (some i) s)
  unfolding pad_input
  combo_press s j i value c on =
      rw (c.is_no_guide, c.not_swallowed, on, c.has_partner, c.partner_held, c.guideless) refl

  combo_release :
      (s : Padd) (j i : ℕ)
      → ((control i).code == Btn.mode) ≡ false
      → (s.device j).swallowed ≡ some i
      → pad_input j (some i) (pos 0) s ≡ menu j "guide" (pos 0) (set_swallowed j none s)
  unfolding pad_input
  combo_release s j i plain e = rw (plain, e, ==-refl i) refl

  -- On a seat with no guide button, the button that completes the guide combo, pressed and let go of,
  -- sends the overlay a press and a release of the guide, and nothing else happens: the pad is told
  -- nothing, and the device's cell is as it was but that it has swallowed no button.
  pub pad_input-combo :
      (s : Padd) (j i : ℕ) (value : ℤ)
      → IsCombo s j i
      → is_nonzero value ≡ true
      → pad_input j (some i) (pos 0) (pad_input j (some i) value s)
        ≡ tell
            (Out.press (s.device j).id "guide" (pos 0))
            (tell (Out.press (s.device j).id "guide" (pos 1)) (set_swallowed j none s))
  pad_input-combo s j i value c on =
      let t = set_swallowed j (some i) s in
      let u = tell (Out.press (t.device j).id "guide" (pos 1)) t in
      ap (pad_input j (some i) (pos 0)) (combo_press s j i value c on ∙ menu_guide j (pos 1) t)
      ∙ (combo_release u j i c.is_no_guide (
            ap (λ (d : Device). d.swallowed)
              (update_self s.device j (record (s.device j) { swallowed = some i })))
          ∙ (menu_guide j (pos 0) (set_swallowed j none u)
              ∙ rw
                  (
                    update_self s.device j (record (s.device j) { swallowed = some i }),
                    update_twice,
                    ==-refl j,
                  )
                  refl))
