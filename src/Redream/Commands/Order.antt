-- ===== src/Redream/Commands/Order.antt =====
-- Every command runs once, in order, and never two savers at a time.
use Prim.Native.String.{String}
use mathlib.Core.List.{append_assoc}
use mathlib.Core.Option.{some-ne-none, some-injective}
use anyconsole.Base.{
  ℕ, zero, suc, ◌≡◌, refl, sym, ◌∙◌, ap, subst, Bool, true, false, Option, none, some, List, [],
  ◌∷◌, ◌++◌, ◌⊎◌, inl, inr, if◌then◌else◌, arith, Bool-cases, Option-cases,
}
use anyconsole.Redream.Commands.{
  Function, Command, State, Event, read, frame, wake, function_named, post, read_command, saver_of,
  run_pending, wake_up, step, and_then, run,
}

-- The command that a line stands for.
abbrev pub known_as : Option Function → ℕ → List Command
known_as none slot = []
known_as (some function) slot = (function, slot) ∷ []

-- The commands of the input, without those that are unknown.
abbrev pub known : List (String × ℕ) → List Command
known [] = []
known ((name, slot) ∷ rest) = known_as (function_named name) slot ++ known rest

abbrev pub waiting : Option Command → List Command
waiting none = []
waiting (some command) = command ∷ []

-- The reader is ready, or a command is pending, or it has run and the reader has not woken up. Only in
-- the last case there may be a saver.
pub data Phase : Bool → Option Command → ℕ → Option ℕ → Type 0 where
  idle : Phase false none 0 none
  asked : (command : Command) → Phase true (some command) 0 none
  done : (saver : Option ℕ) → Phase true none 1 saver

pub record IsOrdered (all : List Command) (s : State) : Type 0 where
  pub phase : Phase s.is_waiting s.pending s.posted s.saver
  pub order : s.ran ++ (waiting s.pending ++ known s.input) ≡ all

Phase-idle :
    {w : Bool} {p : Option Command} {n : ℕ} {v : Option ℕ}
    → Phase w p n v
    → w ≡ false
    → (p ≡ none) × ((n ≡ 0) × (v ≡ none))
Phase-idle idle e = (refl, (refl, refl))
Phase-idle (asked c) e = absurd (ground arith)
Phase-idle (done v) e = absurd (ground arith)

Phase-asked :
    {w : Bool} {p : Option Command} {n : ℕ} {v : Option ℕ}
    → Phase w p n v
    → (p ≡ none) ⊎ ((w ≡ true) × ((n ≡ 0) × (v ≡ none)))
Phase-asked idle = inl refl
Phase-asked (asked c) = inr (refl, (refl, refl))
Phase-asked (done v) = inl refl

Phase-awake :
    {w : Bool} {p : Option Command} {n : ℕ} {v : Option ℕ}
    → Phase w p n v
    → (n ≡ 0) ⊎ ((p ≡ none) × (n ≡ 1))
Phase-awake idle = inl refl
Phase-awake (asked c) = inl refl
Phase-awake (done v) = inr (refl, refl)

post-IsOrdered :
    (all : List Command) (f : Option Function) (slot : ℕ) (rest : List (String × ℕ)) (s : State)
    → Phase s.is_waiting s.pending s.posted s.saver
    → s.is_waiting ≡ false
    → s.ran ++ (waiting s.pending ++ (known_as f slot ++ known rest)) ≡ all
    → IsOrdered all (post f slot rest s)
unfolding post
post-IsOrdered all none slot rest s phase ready order = record { phase = phase; order = order }
post-IsOrdered all (some f) slot rest s phase ready order =
    let (gone, (unposted, unsaved)) = Phase-idle phase ready in
    record {
      phase =
          subst (λ n. Phase true (some (f, slot)) n s.saver) (sym unposted)
            (subst (λ v. Phase true (some (f, slot)) 0 v) (sym unsaved) (asked (f, slot)));
      order = ap (λ o. s.ran ++ (waiting o ++ ((f, slot) ∷ known rest))) (sym gone) ∙ order;
    }

-- What an event that may happen leads to.
abbrev pub Leads : List Command → Option State → Type 0
Leads all none = Unit
Leads all (some t) = IsOrdered all t

read-IsOrdered :
    (all : List Command) (input : List (String × ℕ)) (s : State)
    → s.input ≡ input
    → s.is_waiting ≡ false
    → IsOrdered all s
    → Leads all (read_command input s)
unfolding read_command
read-IsOrdered all [] s e ready h = tt
read-IsOrdered all ((name, slot) ∷ rest) s e ready h =
    post-IsOrdered all (function_named name) slot rest s h.phase ready
      (ap (λ i. s.ran ++ (waiting s.pending ++ known i)) (sym e) ∙ h.order)

frame-IsOrdered :
    (all : List Command) (o : Option Command) (forked : Option ℕ) (s : State)
    → s.pending ≡ o
    → IsOrdered all s
    → Leads all (run_pending o forked s)
unfolding run_pending
frame-IsOrdered all none forked s e h = tt
frame-IsOrdered all (some (f, slot)) forked s e h = elim (Phase-asked h.phase) [
  | inl gone ↦ absurd (some-ne-none (f, slot) (sym e ∙ gone))
  | inr (waits, (unposted, unsaved)) ↦ record {
    phase =
        subst (λ w. Phase w none (suc s.posted) (saver_of f forked s.saver)) (sym waits)
          (subst (λ n. Phase true none (suc n) (saver_of f forked s.saver)) (sym unposted)
            (done (saver_of f forked s.saver)));
    order =
        append_assoc s.ran ((f, slot) ∷ []) (known s.input)
        ∙ ap (λ p. s.ran ++ (waiting p ++ known s.input)) (sym e)
        ∙ h.order;
  }
]

wake-IsOrdered :
    (all : List Command) (n : ℕ) (s : State)
    → s.posted ≡ n
    → IsOrdered all s
    → Leads all (wake_up n s)
unfolding wake_up
wake-IsOrdered all zero s e h = tt
wake-IsOrdered all (suc n) s e h = elim (Phase-awake h.phase) [
  | inl unposted ↦ absurd (omega arith)
  | inr (gone, once) ↦ record {
    phase =
        subst (λ p. Phase false p n none) (sym gone)
          (subst (λ k. Phase false none k none) (omega arith) idle);
    order = h.order;
  }
]

step-IsOrdered :
    (all : List Command) (e : Event) (s : State) → IsOrdered all s → Leads all (step e s)
unfolding step
step-IsOrdered all read s h = elim (Bool-cases s.is_waiting) [
  | inl e ↦ subst (λ w. Leads all (if w then none else read_command s.input s)) (sym e) tt
  | inr e ↦
      subst (λ w. Leads all (if w then none else read_command s.input s)) (sym e)
        (read-IsOrdered all s.input s refl e h)
]
step-IsOrdered all (frame forked) s h = frame-IsOrdered all s.pending forked s refl h
step-IsOrdered all wake s h = if-Leads s.is_waiting _ (wake-IsOrdered all s.posted s refl h)
  where
    if-Leads : (b : Bool) (o : Option State) → Leads all o → Leads all (if b then o else none)
    if-Leads true o k = k
    if-Leads false o k = tt

-- Whatever happens and in whichever order, the commands that have run, the one that is pending and
-- those still to be read are the known commands of the input, in order; none is pending while one runs
-- or its saver is left; and there is no saver while one is pending.
pub run-IsOrdered :
    (all : List Command) (events : List Event) (s t : State)
    → IsOrdered all s
    → run events s ≡ some t
    → IsOrdered all t
unfolding run
run-IsOrdered all [] s t h e = subst (IsOrdered all) (some-injective s t e) h
run-IsOrdered all (event ∷ events) s t h e = elim (Option-cases (step event s)) [
  | inl stuck ↦ absurd (some-ne-none t (sym e ∙ ap (λ o. and_then o (run events)) stuck))
  | inr (u, goes) ↦
      run-IsOrdered all events u t (subst (Leads all) goes (step-IsOrdered all event s h))
        (sym (ap (λ o. and_then o (run events)) goes) ∙ e)
]
