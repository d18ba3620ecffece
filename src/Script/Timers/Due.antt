-- ===== src/Script/Timers/Due.antt =====
-- The timers that are due have all run: script_run_timers.
use anyconsole.Base.{
  ℕ, zero, suc, ◌+◌, ◌≤◌, ◌<◌, ◌≡◌, refl, sym, ◌∙◌, ap, subst, ◌⊎◌, inl, inr, true, false, none,
  some, ◌==◌, ==_iff, arith, Bool-cases,
}
use anyconsole.Script.Timers.{
  Clock, Timer, Timers, drop_timer, is_due, first_due, fire, script_run_timers,
}
use anyconsole.Base.Counts.{one_if, count_below, count-swap_remove}

module _ ⦃C : Clock⦄ where
  open C use {Time, Callback}

  -- How many timers are due.
  abbrev pub due_count : Time → Timers → ℕ
  due_count now s = count_below (is_due now) s.count s.timers

  first_due-cases :
      (now : Time) (f : ℕ → Timer) (i left : ℕ)
      → ((first_due now f i left ≡ none)
          × ((k : ℕ) → i ≤ k → k < i + left → is_due now (f k) ≡ false))
        ⊎ ((k : ℕ) × (first_due now f i left ≡ some k) × (k < i + left) × (is_due now (f k) ≡ true))
  unfolding first_due
  first_due-cases now f i zero = inl (refl, λ k le lt. absurd (omega arith))
  first_due-cases now f i (suc left) = elim (Bool-cases (is_due now (f i))) [
    | inl e ↦ rw e (inr (i, refl, omega arith, e))
    | inr e ↦ rw e (elim (first_due-cases now f (suc i) left) [
      | inl (ends, all) ↦ inl (
        ends,
        λ k le lt. elim (Bool-cases (i == k)) [
          | inl same ↦ subst (λ n. is_due now (f n) ≡ false) ((==_iff i k).0 same) e
          | inr other ↦ all k (ground arith) (omega arith)
        ],
      )
      | inr (k, found, lt, due) ↦ inr (k, found, omega arith, due)
    ])
  ]

  due-drop_timer :
      (now : Time) (s : Timers) (i : ℕ)
      → i < s.count
      → is_due now (s.timers i) ≡ true
      → due_count now (drop_timer i s) + 1 ≡ due_count now s
  unfolding drop_timer
  due-drop_timer now s i lt due =
      let swap = count-swap_remove (is_due now) s.count i s.timers lt in
      ap (λ b. due_count now (drop_timer i s) + one_if b) (sym due) ∙ swap

  -- Where no callback leaves more timers due than it finds, one round more than there are timers due is
  -- enough: the loop ends, and then no timer is due.
  pub script_run_timers-ends :
      (call : Callback → Timers → Timers) (now : Time) (fuel : ℕ) (s : Timers)
      → ((callback : Callback) (t : Timers) → due_count now (call callback t) ≤ due_count now t)
      → due_count now s < fuel
      → (t : Timers) × (script_run_timers call now fuel s ≡ some t)
        × ((k : ℕ) → k < t.count → is_due now (t.timers k) ≡ false)
  unfolding script_run_timers fire
  script_run_timers-ends call now zero s calm enough = absurd (omega arith)
  script_run_timers-ends call now (suc fuel) s calm enough =
      elim (first_due-cases now s.timers 0 s.count) [
        | inl (ends, all) ↦ rw ends (s, refl, λ k lt. all k (omega arith) (omega arith))
        | inr (i, found, lt, due) ↦ rw found (
            script_run_timers-ends call now fuel (call (s.timers i).callback (drop_timer i s)) calm
              (omega (
                arith,
                calm (s.timers i).callback (drop_timer i s),
                due-drop_timer now s i (omega arith) due,
              )))
      ]
