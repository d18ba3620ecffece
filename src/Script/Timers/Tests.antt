-- ===== src/Script/Timers/Tests.antt =====
-- Examples of timers: two that are due at 5, of which the first starts one for later.
use anyconsole.Base.{
  ℕ, zero, suc, ◌+◌, ◌≡◌, ◌≤◌, ◌<◌, refl, ap, if_true, if_false, ◌⊎◌, true, false, Option, none,
  some, ltb, ◌==◌, arith, Bool-cases, inl, inr,
}
use anyconsole.Base.Counts.{write, count-write_above}
use anyconsole.Script.Timers.{
  Clock, Timer, Timers, timers_max, is_due, native_timer, first_due, fire, drop_timer,
  script_run_timers,
}
use anyconsole.Script.Timers.Due.{due_count, script_run_timers-ends}

-- Whole milliseconds.
abbrev clock : Clock
clock = record { Time = ℕ; Callback = ℕ; after = λ n t. n + t; later = λ t u. ltb u t }

abbrev two : Timers ⦃C = clock⦄
two = record {
  timers = λ i. record { id = suc i; due = i + 4; callback = i };
  count = 2;
  next_id = 2;
}

-- The first callback starts a timer for 10 milliseconds later, and the others start none.
abbrev call : ℕ → Timers ⦃C = clock⦄ → Timers ⦃C = clock⦄
call zero t = (native_timer ⦃C = clock⦄ 5 10 7 t).1
call (suc callback) t = t

abbrev with_later : Timers ⦃C = clock⦄ → Timers ⦃C = clock⦄
with_later t = record {
  timers = write t.timers t.count (record { id = suc t.next_id; due = 15; callback = 7 });
  count = suc t.count;
  next_id = suc t.next_id;
}

due-with_later :
    (t : Timers ⦃C = clock⦄) → due_count ⦃C = clock⦄ 5 (with_later t) ≡ due_count ⦃C = clock⦄ 5 t
due-with_later t =
    let later : Timer ⦃C = clock⦄ = record { id = suc t.next_id; due = 15; callback = 7 } in
    let own : (t.count == t.count) ≡ true = ground arith in
    rw own (
      omega (
        arith,
        count-write_above (is_due ⦃C = clock⦄ 5) t.count t.count t.timers later (omega arith),
      ))

call-cases : (t : Timers ⦃C = clock⦄) → (call 0 t ≡ t) ⊎ (call 0 t ≡ with_later t)
unfolding native_timer
call-cases t = elim (Bool-cases (t.count == timers_max)) [
  | inl full ↦ inl (
      ap (λ (r : Option ℕ × Timers ⦃C = clock⦄). r.1)
        (if_true (none, t) (some (suc t.next_id), with_later t) full))
  | inr room ↦ inr (
      ap (λ (r : Option ℕ × Timers ⦃C = clock⦄). r.1)
        (if_false (none, t) (some (suc t.next_id), with_later t) room))
]

call-calm :
    (callback : ℕ) (t : Timers ⦃C = clock⦄)
    → due_count ⦃C = clock⦄ 5 (call callback t) ≤ due_count ⦃C = clock⦄ 5 t
call-calm zero t = elim (call-cases t) [
  | inl same ↦ omega (arith, ap (due_count ⦃C = clock⦄ 5) same)
  | inr started ↦ omega (arith, ap (due_count ⦃C = clock⦄ 5) started, due-with_later t)
]
call-calm (suc callback) t = omega arith

script_run_timers-ends_example :
    (t : Timers ⦃C = clock⦄) × (script_run_timers ⦃C = clock⦄ call 5 3 two ≡ some t)
    × ((k : ℕ) → k < t.count → is_due ⦃C = clock⦄ 5 (t.timers k) ≡ false)
script_run_timers-ends_example =
    script_run_timers-ends ⦃C = clock⦄ call 5 3 two call-calm (omega arith)

abbrev left_of : Option (Timers ⦃C = clock⦄) → ℕ
left_of none = 99
left_of (some t) = t.count

-- Both have run, and the new one is left.
script_run_timers_test : left_of (script_run_timers ⦃C = clock⦄ call 5 3 two) ≡ 1
unfolding script_run_timers first_due fire drop_timer native_timer
script_run_timers_test = refl
