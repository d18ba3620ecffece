-- ===== src/Redream/Commands/Ends.antt =====
-- Every command gets to run: no state is a dead end.
use Prim.Native.String.{String}
use mathlib.Core.List.{append_assoc, append-nil}
use anyconsole.Base.{
  ℕ, ◌≡◌, refl, sym, ◌∙◌, ap, subst, Bool, true, false, Option, none, some, List, [], ◌∷◌, ◌++◌,
  inl, inr, Option-cases,
}
use anyconsole.Redream.Commands.{
  Command, State, Event, read, frame, wake, function_named, post, read_command, saver_of,
  run_pending, wake_up, step, and_then, run, start,
}
use anyconsole.Redream.Commands.Order.{
  known, known_as, waiting, Phase, idle, asked, done, run-IsOrdered,
}

-- The reader is ready to read on.
abbrev pub ready : List (String × ℕ) → List Command → State
ready input ran = record {
  input = input;
  is_waiting = false;
  pending = none;
  posted = 0;
  saver = none;
  ran = ran;
}

-- Some events lead to an empty input, where the commands of `ran` have run.
abbrev Ends : State → List Command → Type 0
Ends s ran = (events : List Event) × (run events s ≡ some (ready [] ran))

step-Ends :
    (e : Event) (s t : State) (ran : List Command) → step e s ≡ some t → Ends t ran → Ends s ran
unfolding run
step-Ends e s t ran goes (events, ends) =
    (e ∷ events, ap (λ o. and_then o (run events)) goes ∙ ends)

-- The reader waits for a command to run.
abbrev asking : List (String × ℕ) → Command → List Command → State
asking input command ran = record {
  input = input;
  is_waiting = true;
  pending = some command;
  posted = 0;
  saver = none;
  ran = ran;
}

done-Ends :
    (input : List (String × ℕ)) (saver : Option ℕ) (ran all : List Command)
    → Ends (ready input ran) all
    → Ends
        (record {
          input = input;
          is_waiting = true;
          pending = none;
          posted = 1;
          saver = saver;
          ran = ran;
        })
        all
unfolding step wake_up
done-Ends input saver ran all h = step-Ends wake _ (ready input ran) all refl h

asked-Ends :
    (input : List (String × ℕ)) (command : Command) (ran all : List Command)
    → Ends (ready input (ran ++ (command ∷ []))) all
    → Ends (asking input command ran) all
unfolding step run_pending
asked-Ends input (f, slot) ran all h =
    step-Ends (frame none) (asking input (f, slot) ran) _ all refl
      (done-Ends input (saver_of f none none) (ran ++ ((f, slot) ∷ [])) all h)

ready-Ends :
    (input : List (String × ℕ)) (ran : List Command) → Ends (ready input ran) (ran ++ known input)
unfolding run step read_command post run_pending wake_up
ready-Ends [] ran = ([], ap (λ l. some (ready [] l)) (sym (append-nil ran)))
ready-Ends ((name, slot) ∷ rest) ran = elim (Option-cases (function_named name)) [
  | inl e ↦
      step-Ends read (ready ((name, slot) ∷ rest) ran) (ready rest ran) _
        (ap (λ f. some (post f slot rest (ready ((name, slot) ∷ rest) ran))) e)
        (subst (Ends (ready rest ran)) (ap (λ f. ran ++ (known_as f slot ++ known rest)) (sym e))
          (ready-Ends rest ran))
  | inr (f, e) ↦
      let asks : State = post (some f) slot rest (ready ((name, slot) ∷ rest) ran) in
      step-Ends read (ready ((name, slot) ∷ rest) ran) asks _
        (ap (λ g. some (post g slot rest (ready ((name, slot) ∷ rest) ran))) e)
        (asked-Ends rest (f, slot) ran _
          (subst (Ends (ready rest (ran ++ ((f, slot) ∷ []))))
            (append_assoc ran ((f, slot) ∷ []) (known rest)
              ∙ ap (λ g. ran ++ (known_as g slot ++ known rest)) (sym e))
            (ready-Ends rest (ran ++ ((f, slot) ∷ [])))))
]

Phase-Ends :
    (input : List (String × ℕ)) (ran : List Command) (w : Bool) (p : Option Command) (n : ℕ)
    (v : Option ℕ)
    → Phase w p n v
    → Ends
        (record { input = input; is_waiting = w; pending = p; posted = n; saver = v; ran = ran })
        (ran ++ (waiting p ++ known input))
Phase-Ends input ran w p n v idle = ready-Ends input ran
Phase-Ends input ran w p n v (asked c) = asked-Ends input c ran _ (
    subst (Ends (ready input (ran ++ (c ∷ [])))) (append_assoc ran (c ∷ []) (known input))
      (ready-Ends input (ran ++ (c ∷ []))))
Phase-Ends input ran w p n v (done saver) = done-Ends input saver ran _ (ready-Ends input ran)

-- From every state that a run may reach, events lead to the end of the input, where the known commands
-- have run, each once and in order.
pub run-Ends :
    (input : List (String × ℕ)) (events : List Event) (s : State)
    → run events (start input) ≡ some s
    → (more : List Event) × (run more s ≡ some (ready [] (known input)))
run-Ends input events s e =
    let h =
      run-IsOrdered (known input) events (start input) s (record { phase = idle; order = refl })
        e in
    subst (Ends s) h.order
      (Phase-Ends s.input s.ran s.is_waiting s.pending s.posted s.saver h.phase)
