-- ===== src/Overlay/Windows/Tests.antt =====
-- Examples of the windows: two open, one of them gets a name, and one closes.
use Prim.Native.String.{String}
use anyconsole.Base.{◌≡◌, refl, arith, false, none, some, List, [], ◌∷◌}
use anyconsole.Base.Loop.{for_below}
use anyconsole.Overlay.Windows.{
  Windows, Event, new_window, step, on_toplevel, on_toplevel_app_id, change_each, window_from,
  game_window,
}
use anyconsole.Overlay.Windows.Games.{IsWindowOf, game_window-steps}
use anyconsole.Overlay.Windows.Registry.{Registry, Represents, map_step, open_entry, close_entry}
use anyconsole.Overlay.Windows.Refined.{steps, map_steps, AllFresh, steps-Represents}

abbrev no_windows : Windows
no_windows = record { window = λ _. new_window 0; count = 0; is_changed = false }

abbrev no_entries : Registry
no_entries = record { at = λ _. none; size = 0 }

abbrev all_of : String → String
all_of t = t

abbrev opening : List Event
opening =
    Event.opened 5
    ∷ Event.named 5 "games.one"
    ∷ Event.opened 6
    ∷ Event.activates 6 false
    ∷ Event.listed_named 9 "games.one"
    ∷ Event.closed 5
    ∷ []

no_windows-Represents : Represents no_windows no_entries
no_windows-Represents = record {
  sized = refl;
  listed = λ i lt. absurd (omega arith);
  only = λ h w e. absurd (cc);
  distinct = λ i k lt below e. absurd (omega arith);
}

opening-AllFresh : AllFresh all_of opening no_entries
unfolding map_step open_entry close_entry
opening-AllFresh = (refl, (tt, (refl, (tt, (tt, (tt, tt))))))

steps-Represents_example :
    Represents (steps all_of opening no_windows) (map_steps all_of opening no_entries)
steps-Represents_example =
    steps-Represents all_of opening no_windows no_entries opening-AllFresh no_windows-Represents

-- Two windows, of which the second one gets the game's key.
abbrev naming : List Event
naming = Event.opened 5 ∷ Event.opened 6 ∷ Event.named 6 "games.one" ∷ []

naming-AllFresh : AllFresh all_of naming no_entries
unfolding map_step open_entry
naming-AllFresh = (refl, (refl, (tt, tt)))

game_window_named : game_window "games.one" (steps all_of naming no_windows) ≡ some 1
unfolding game_window window_from step on_toplevel on_toplevel_app_id change_each for_below
game_window_named = refl

game_window-steps_example :
    IsWindowOf "games.one"
      (steps all_of naming no_windows)
      (map_steps all_of naming no_entries)
      (game_window "games.one" (steps all_of naming no_windows))
game_window-steps_example =
    game_window-steps "games.one" all_of naming no_windows no_entries naming-AllFresh
      no_windows-Represents
