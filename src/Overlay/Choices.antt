-- ===== src/Overlay/Choices.antt =====
-- guest/overlay.c: the settings that a row cycles through (cycle). Choice 0 stands for no choice, and
-- there are `count` others.
use native.Mathlib.Nat.{mod-eq_of_lt, add-mod_right}
use anyconsole.Base.{
  ℕ, suc, ◌+◌, ◌-◌, ◌%◌, ◌≤◌, ◌≡◌, arith, Bool-cases, inl, inr, if◌then◌else◌, ◌==◌, ◌∙◌, ap,
}

-- A row is stepped by -1 or 1.
pub data Step : Type 0 where
  back forward : Step

abbrev pub opposite : Step → Step
opposite back = forward
opposite forward = back

-- (current + step + count + 1) % (count + 1)
unfoldable pub cycle : ℕ → ℕ → Step → ℕ
cycle current count back = (current + count + 1 - 1) % suc count
cycle current count forward = (current + 1 + count + 1) % suc count

-- Once round, a choice is itself.
round :
    (total choice count : ℕ)
    → total ≡ choice + suc count
    → choice ≤ count
    → total % suc count ≡ choice
round total choice count e le =
    ap (λ n. n % suc count) e ∙ (add-mod_right choice (suc count) ∙ mod-eq_of_lt (omega arith))

-- A step forward goes to the next choice, and from the last to no choice.
cycle-forward :
    (current count : ℕ)
    → current ≤ count
    → cycle current count Step.forward ≡ (if current == count then 0 else suc current)
unfolding cycle
cycle-forward current count le = elim (Bool-cases (current == count)) [
  | inl last ↦ rw last (
      ap (λ n. n % suc count) (ground arith)
      ∙ (add-mod_right (suc count) (suc count)
          ∙ round (suc count) 0 count (omega arith) (omega arith)))
  | inr inner ↦ rw inner (round _ (suc current) count (omega arith) (ground arith))
]

cycle-back :
    (current count : ℕ)
    → current ≤ count
    → cycle current count Step.back ≡ (if current == 0 then count else current - 1)
unfolding cycle
cycle-back current count le = elim (Bool-cases (current == 0)) [
  | inl first ↦ rw first (ap (λ n. n % suc count) (ground arith) ∙ mod-eq_of_lt (omega arith))
  | inr inner ↦ rw inner (round _ (current - 1) count (ground arith) (omega arith))
]

-- A step leads from one of the choices 0 to `count` to another of them, and the opposite step leads
-- back.
pub cycle-opposite :
    (current count : ℕ) (step : Step)
    → current ≤ count
    → (cycle current count step ≤ count)
      × (cycle (cycle current count step) count (opposite step) ≡ current)
cycle-opposite current count back le =
    let here = cycle-back current count le in
    let low : cycle current count Step.back ≤ count = ground (arith, here) in
    (low, cycle-forward (cycle current count Step.back) count low ∙ ground (arith, here))
cycle-opposite current count forward le =
    let here = cycle-forward current count le in
    let low : cycle current count Step.forward ≤ count = ground (arith, here) in
    (low, cycle-back (cycle current count Step.forward) count low ∙ ground (arith, here))
