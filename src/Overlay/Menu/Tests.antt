-- ===== src/Overlay/Menu/Tests.antt =====
-- Tests and examples of the menu: device 7 plays for profile 2 and goes through the guide.
use anyconsole.Base.{ℕ, ◌<◌, ◌≡◌, refl, arith, Bool, true, false, none, some, [], ◌∷◌, length}
use anyconsole.Overlay.Players.{Lobby, login}
use anyconsole.Overlay.Menu.{Screen, Action, Command, Tab, View, World, Menu, plane_of, new_view}
use anyconsole.Overlay.Menu.Rows.{build}
use anyconsole.Overlay.Menu.Navigate.{first_guide, press}
use anyconsole.Overlay.Menu.Requests.{open_screen, play}
use anyconsole.Overlay.Menu.Stacks.{Laid}
use anyconsole.Overlay.Menu.Acting.{IsMenu}
use anyconsole.Overlay.Menu.Pressing.{press-IsMenu}
use anyconsole.Overlay.Menu.Opening.{open_screen-IsMenu, play-IsMenu}
use anyconsole.Overlay.Menu.Selection.{IsMatch, build-selected}
use anyconsole.Overlay.Menu.Broken.{IsLost, request_login-IsLost, play-IsLost}

-- Two games that are installed, an output, and no store.
abbrev shelf : World
shelf = record {
  listed = λ _. 1 ∷ 0 ∷ [];
  has_job = λ _. false;
  installed = λ _. true;
  sold = λ _ _. false;
  store_count = 0;
  rewinds = λ _. true;
  restarting = λ _. false;
  has_analog_row = λ _. false;
  is_analog = λ _. false;
  has_second_screen = λ _. false;
  upscalable = λ _. false;
  upscalable_games = [];
  any_upscalable = false;
  has_window = λ _. true;
  outputs = 41 ∷ 42 ∷ [];
  microphones = [];
  has_bluetooth = true;
  paired = true ∷ [];
  has_city = false;
  slot_filled = λ _ _. true;
  rewind_slots = 3 ∷ 4 ∷ [];
  script_takes = λ _. false;
  has_guide_button = λ _. true;
  has_session = false;
  can_capture = false;
  can_start = λ _. true;
}

-- So many players, of whom the first is profile 2, with a device each.
abbrev lobby_of : ℕ → Bool → Lobby
lobby_of count shown = record {
  player = λ _. 2;
  player_count = count;
  member = λ _. record { device = 7; profile = 2 };
  member_count = count;
  focus = some 7;
  picker = none;
  input_device = none;
  whois_selected = 0;
  guide_shown = shown;
  dashboard_open = true;
  dashboard_depth = 1;
  guide_depths = λ _. 1;
  games = record { owner = 2; running = false } ∷ record { owner = 2; running = true } ∷ [];
  is_changed = false;
  told = [];
}

abbrev menu_of : ℕ → Bool → Menu
menu_of count shown = record {
  lobby = lobby_of count shown;
  dashboard = λ _. new_view Screen.home none;
  guides = λ _ _. first_guide;
  whois_row = record { action = Action.nothing; arg = 0 };
  guide_profile = 2;
  active = none;
  rewind_back = 0;
  save_slot = 0;
  mode_staged = false;
  capture_current = false;
  paint_needed = false;
  repeating = Command.no_command;
  repeating_device = 0;
  repeat_runs = false;
  is_broken = false;
  calls = [];
}

-- The guide shows for a player; or nobody plays.
abbrev guided : Menu
guided = menu_of 1 true

abbrev alone : Menu
alone = menu_of 0 false

menu_of-Laid : (count : ℕ) (shown : Bool) → (shown ≡ true → 0 < count) → Laid (menu_of count shown)
unfolding plane_of
menu_of-Laid count shown plays = record {
  low = omega arith;
  on_top = record { high = omega arith; screens = λ i lt. refl; bottom = λ lt. refl };
  of_profile = λ p. record { high = omega arith; screens = λ i lt. refl; bottom = λ lt. refl };
  shows = λ e. omega arith;
  plays = plays;
  whole = refl;
}

guided-IsMenu : IsMenu guided
guided-IsMenu = record {
  seated = record {
    few = omega arith;
    distinct = λ i k lt high e. omega arith;
    seated = λ i lt. (0, omega arith, refl);
  };
  laid = menu_of-Laid 1 true (λ e. omega arith);
}

alone-IsMenu : IsMenu alone
alone-IsMenu = record {
  seated = record {
    few = omega arith;
    distinct = λ i k lt high e. absurd (omega arith);
    seated = λ i lt. absurd (omega arith);
  };
  laid = menu_of-Laid 0 false (λ e. absurd (cc));
}

press-IsMenu_example : IsMenu (press shelf 7 Command.confirm guided)
press-IsMenu_example = press-IsMenu shelf 7 Command.confirm guided guided-IsMenu

open_screen-IsMenu_example :
    IsMenu (open_screen shelf Screen.outputs none Tab.devices_tab 2 none guided)
open_screen-IsMenu_example =
    open_screen-IsMenu shelf Screen.outputs none Tab.devices_tab 2 none guided (λ e. omega arith)
      guided-IsMenu

play-IsMenu_example : IsMenu (play 1 false true true guided)
play-IsMenu_example = play-IsMenu 1 false true true guided (λ e f. absurd (cc)) guided-IsMenu

-- The view of the home screen with game 0 selected, which is its second row.
abbrev at_home : View
at_home = record (new_view Screen.home none) { action = Action.open_game }

build-selected_example :
    ((0 < length (build shelf alone at_home).0)
      → (build shelf alone at_home).1.selected < length (build shelf alone at_home).0)
    × ((k : ℕ)
        → IsMatch Action.open_game 0 (build shelf alone at_home).0 k
        → IsMatch Action.open_game 0
            (build shelf alone at_home).0
            (build shelf alone at_home).1.selected)
build-selected_example = build-selected shelf alone at_home

request_login-IsLost_example :
    IsLost
      (login 1 (some 9) (open_screen shelf Screen.guide none Tab.devices_tab 0 none alone).lobby)
request_login-IsLost_example =
    request_login-IsLost shelf Tab.devices_tab 0 none 1 (some 9) alone alone-IsMenu refl refl refl

play-IsLost_example : IsLost (play 1 false true false guided).lobby
play-IsLost_example = play-IsLost 1 guided refl
