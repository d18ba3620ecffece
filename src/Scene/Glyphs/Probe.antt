-- ===== src/Scene/Glyphs/Probe.antt =====
-- A search through a table that has a slot to stop at ends: probe.
use anyconsole.Base.{
  ℕ, zero, suc, ◌+◌, ◌-◌, ◌%◌, ◌<◌, ◌≡◌, refl, sym, ◌∙◌, ap, subst, inl, inr, Bool, true, false,
  Option, none, some, if◌then◌else◌, arith, Bool-cases, Option-cases, ltb,
}
use native.Mathlib.Nat.{mod-eq_of_lt, mod_self}
use anyconsole.Base.Counts.{count_below}
use anyconsole.Scene.Glyphs.{Glyph, Slots, probe}

-- Where a search ends.
pub record Stop (stops : Option Glyph → Bool) (slots : Slots) (capacity : ℕ) (found : Option ℕ)
    : Type 0 where
  pub slot : ℕ
  pub is_found : found ≡ some slot
  pub slot_lt : slot < capacity
  pub is_stop : stops (slots slot) ≡ true

module _ (stops : Option Glyph → Bool) (slots : Slots) (capacity : ℕ) where
  here-Stop :
      (slot : ℕ) (next : Option ℕ)
      → slot < capacity
      → (stops (slots slot) ≡ false → Stop stops slots capacity next)
      → Stop stops slots capacity (if stops (slots slot) then some slot else next)
  here-Stop slot next lt go = elim (Bool-cases (stops (slots slot))) [
    | inl e ↦ rw e (record { slot = slot; is_found = refl; slot_lt = lt; is_stop = e })
    | inr e ↦ rw e (go e)
  ]

  -- From a slot up to one to stop at.
  up-Stop :
      (d fuel slot : ℕ)
      → d < fuel
      → slot + d < capacity
      → stops (slots (slot + d)) ≡ true
      → Stop stops slots capacity (probe stops slots capacity fuel slot)
  unfolding probe
  up-Stop d zero slot lt below e = absurd (omega arith)
  up-Stop zero (suc fuel) slot lt below e = here-Stop slot _ (omega arith) λ f. absurd (
      let z : slot + 0 ≡ slot = omega arith in
      let g : stops (slots slot) ≡ true = subst (λ k. stops (slots k) ≡ true) z e in ground arith)
  up-Stop (suc d) (suc fuel) slot lt below e = here-Stop slot _ (omega arith) λ f.
      subst (λ s. Stop stops slots capacity (probe stops slots capacity fuel s))
        (sym (mod-eq_of_lt (omega arith)))
        (up-Stop d fuel (suc slot) (omega arith) (omega arith)
          (subst (λ k. stops (slots k) ≡ true) (omega arith) e))

  -- From a slot past the end of the table to one to stop at.
  around-Stop :
      (gap fuel slot target : ℕ)
      → slot + suc gap ≡ capacity
      → gap + suc target < fuel
      → target < capacity
      → stops (slots target) ≡ true
      → Stop stops slots capacity (probe stops slots capacity fuel slot)
  unfolding probe
  around-Stop gap zero slot target all lt below e = absurd (omega arith)
  around-Stop zero (suc fuel) slot target all lt below e =
      let wraps : suc slot % capacity ≡ 0 =
        ap (λ n. n % capacity) (omega arith) ∙ mod_self capacity in
      here-Stop slot _ (omega arith) λ f.
        subst (λ s. Stop stops slots capacity (probe stops slots capacity fuel s)) (sym wraps)
          (up-Stop target fuel 0 (omega arith) (omega arith)
            (subst (λ k. stops (slots k) ≡ true) (omega arith) e))
  around-Stop (suc gap) (suc fuel) slot target all lt below e = here-Stop slot _ (omega arith) λ f.
      subst (λ s. Stop stops slots capacity (probe stops slots capacity fuel s))
        (sym (mod-eq_of_lt (omega arith)))
        (around-Stop gap fuel (suc slot) target (omega arith) (omega arith) below e)

  -- As many steps as there are slots are enough.
  pub probe-Stop :
      (slot target : ℕ)
      → slot < capacity
      → target < capacity
      → stops (slots target) ≡ true
      → Stop stops slots capacity (probe stops slots capacity capacity slot)
  probe-Stop slot target from below e = elim (Bool-cases (ltb target slot)) [
    | inl f ↦
        around-Stop (capacity - slot - 1) capacity slot target (omega arith) (ground arith) below e
    | inr f ↦
        up-Stop (target - slot) capacity slot (omega arith) (ground arith)
          (subst (λ k. stops (slots k) ≡ true) (ground arith) e)
  ]

abbrev pub is_used : Option Glyph → Bool
is_used none = false
is_used (some g) = true

-- A table that is not full has a free slot.
pub free-slot :
    (n : ℕ) (slots : Slots) → count_below is_used n slots < n → (k : ℕ) × (k < n) × (slots k ≡ none)
free-slot zero slots lt = absurd (omega arith)
free-slot (suc n) slots lt = elim (Option-cases (slots n)) [
  | inl e ↦ (n, omega arith, e)
  | inr (g, e) ↦
      let used : is_used (slots n) ≡ true = ap is_used e in
      let (k, below, free) = free-slot n slots (ground arith) in (k, omega arith, free)
]
