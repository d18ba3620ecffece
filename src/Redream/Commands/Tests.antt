-- ===== src/Redream/Commands/Tests.antt =====
-- Examples of commands: a save, an unknown command and a load.
use Prim.Native.String.{String}
use anyconsole.Base.{ℕ, ◌≡◌, refl, none, some, List, [], ◌∷◌, true}
use anyconsole.Redream.Commands.{
  Function, State, Event, start, run, step, read_command, post, function_named, run_pending,
  saver_of,
}
use anyconsole.Redream.Commands.Order.{IsOrdered, idle, known, run-IsOrdered}
use anyconsole.Redream.Commands.Ends.{ready, run-Ends}

abbrev input : List (String × ℕ)
input = ("save", 2) ∷ ("jump", 0) ∷ ("load", 2) ∷ []

abbrev events : List Event
events = Event.read ∷ Event.frame (some 100) ∷ []

abbrev saved : State
saved = record {
  input = ("jump", 0) ∷ ("load", 2) ∷ [];
  is_waiting = true;
  pending = none;
  posted = 1;
  saver = some 100;
  ran = (Function.save, 2) ∷ [];
}

run-saved : run events (start input) ≡ some saved
unfolding run step read_command post function_named run_pending saver_of
run-saved = refl

run-IsOrdered_example : IsOrdered (known input) saved
run-IsOrdered_example =
    run-IsOrdered (known input) events (start input) saved (record { phase = idle; order = refl })
      run-saved

run-Ends_example : (more : List Event) × (run more saved ≡ some (ready [] (known input)))
run-Ends_example = run-Ends input events saved run-saved
