-- ===== src/Script/Timers.antt =====
-- guest/script.c: the timers of a skin's script (native_timer, drop_timer, native_cancel,
-- script_next_timer, script_run_timers). The clock is C's `double`, and a callback is QuickJS's:
-- parameters. The first `count` cells of `timers` are used. A clock never shows a negative time, so
-- that `none` is the -1 of script_next_timer.
pub mod Due
mod Tests
use anyconsole.Base.{
  ℕ, zero, suc, ◌+◌, ◌-◌, Bool, true, false, not, ◌&&◌, Option, none, some, ltb, ◌==◌,
  if◌then◌else◌,
}
use anyconsole.Base.Counts.{write}

-- `later t u` is t > u.
pub record Clock : Type 1 where
  pub Time : Type 0
  pub Callback : Type 0
  pub after : ℕ → Time → Time
  pub later : Time → Time → Bool

abbrev pub timers_max : ℕ
timers_max = 256

module _ ⦃C : Clock⦄ where
  open C use {Time, Callback, after, later}

  pub record Timer : Type 0 where
    pub id : ℕ
    pub due : Time
    pub callback : Callback

  pub record Timers : Type 0 where
    pub timers : ℕ → Timer
    pub count : ℕ
    pub next_id : ℕ

  -- The id of the new timer, or none where there are too many.
  unfoldable pub native_timer : Time → ℕ → Callback → Timers → Option ℕ × Timers
  native_timer now milliseconds callback s = if s.count == timers_max then (none, s) else (
    some (suc s.next_id),
    record s {
      timers =
          write s.timers s.count
            (record { id = suc s.next_id; due = after milliseconds now; callback = callback });
      count = suc s.count;
      next_id = suc s.next_id;
    },
  )

  unfoldable pub drop_timer : ℕ → Timers → Timers
  drop_timer index s = record s {
    timers = write s.timers index (s.timers (s.count - 1));
    count = s.count - 1;
  }

  -- The rounds of the loop from `i`, at most `rounds` of them.
  unfoldable pub cancel_from : ℕ → ℕ → ℕ → Timers → Timers
  cancel_from zero id i s = s
  cancel_from (suc rounds) id i s =
      let t = if ltb i s.count && (s.timers i).id == id then drop_timer i s else s in
      cancel_from rounds id (suc i) t

  unfoldable pub native_cancel : ℕ → Timers → Timers
  native_cancel id s = cancel_from s.count id 0 s

  -- due < 0 || t.due < due
  abbrev pub is_sooner : Time → Option Time → Bool
  is_sooner t none = true
  is_sooner t (some due) = later due t

  -- The loop over the first `n` timers.
  unfoldable pub soonest : (ℕ → Timer) → ℕ → Option Time
  soonest timers zero = none
  soonest timers (suc n) =
      let due = soonest timers n in
      if is_sooner (timers n).due due then some (timers n).due else due

  unfoldable pub script_next_timer : Timers → Option Time
  script_next_timer s = soonest s.timers s.count

  abbrev pub is_due : Time → Timer → Bool
  is_due now t = not (later t.due now)

  -- The rounds of script_run_timers that pass over timers, from `i` on, of which `left` are left.
  unfoldable pub first_due : Time → (ℕ → Timer) → ℕ → ℕ → Option ℕ
  first_due now timers i zero = none
  first_due now timers i (suc left) =
      let later = first_due now timers (suc i) left in
      if is_due now (timers i) then some i else later

  -- The timer is taken out before its callback runs.
  unfoldable pub fire : (Callback → Timers → Timers) → ℕ → Timers → Timers
  fire call i s = call (s.timers i).callback (drop_timer i s)

  abbrev pub run_at : Timers → (ℕ → Option Timers) → Option ℕ → Option Timers
  run_at s again none = some s
  run_at s again (some i) = again i

  -- The loop of script_run_timers, which starts over after a callback. `fuel` bounds the rounds that
  -- start: none where they are more.
  unfoldable pub script_run_timers :
      (Callback → Timers → Timers) → Time → ℕ → Timers → Option Timers
  script_run_timers call now zero s = none
  script_run_timers call now (suc fuel) s =
      run_at s (λ i. script_run_timers call now fuel (fire call i s))
        (first_due now s.timers 0 s.count)
