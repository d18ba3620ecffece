-- ===== src/Overlay/Players/Tests.antt =====
-- Tests and examples of the players: device 7 plays for profile 2, alone.
use anyconsole.Base.{◌≡◌, refl, arith, true, false, none, some, List, [], ◌∷◌}
use anyconsole.Overlay.Players.{Lobby, first_from, seat_of, profile_of, seat_for, login, logout}
use anyconsole.Overlay.Players.Seated.{IsSeated, HasSeat}
use anyconsole.Overlay.Players.Login.{login-IsSeated, login-profile_of}
use anyconsole.Overlay.Players.Session.{Listed, reset_devices}
use anyconsole.Overlay.Players.Adopt.{first_members, listed_members, reset_devices-IsSeated}
use anyconsole.Overlay.Players.Logout.{IsLoggedOut, logout-IsLoggedOut}

abbrev lone : Lobby
lone = record {
  player = λ _. 2;
  player_count = 1;
  member = λ _. record { device = 7; profile = 2 };
  member_count = 1;
  focus = some 7;
  picker = none;
  input_device = none;
  whois_selected = 0;
  guide_shown = true;
  dashboard_open = true;
  dashboard_depth = 1;
  guide_depths = λ _. 0;
  games = record { owner = 2; running = true } ∷ [];
  is_changed = false;
  told = [];
}

lone-IsSeated : IsSeated lone
lone-IsSeated = record {
  few = omega arith;
  distinct = λ i k low high e. omega arith;
  seated = λ i lt. (0, omega arith, refl);
}

-- Another device logs in for profile 3.
abbrev both : Lobby
both = login 3 (some 9) lone

login-IsSeated_example : IsSeated both
login-IsSeated_example = login-IsSeated 3 (some 9) lone lone-IsSeated

both-IsSeated : IsSeated both
both-IsSeated = login-IsSeated 3 (some 9) lone lone-IsSeated

login-profile_of_example : (profile_of both 9 ≡ 3) × HasSeat both 3
unfolding seat_for seat_of first_from
login-profile_of_example = login-profile_of 3 9 lone 1 refl refl lone-IsSeated (omega arith)

both-HasSeat : HasSeat both 3
unfolding seat_for seat_of first_from
both-HasSeat = (login-profile_of 3 9 lone 1 refl refl lone-IsSeated (omega arith)).1

logout-IsLoggedOut_example : IsLoggedOut 3 both (logout 3 both)
logout-IsLoggedOut_example = logout-IsLoggedOut 3 both both-IsSeated both-HasSeat

-- The overlay has forgotten who plays for what; padd lists two devices on the seats of both players,
-- one on a seat of nobody and one on none.
abbrev lost : Lobby
lost = record both { member = λ k. record { device = k; profile = 99 }; member_count = 2 }

abbrev listed : List Listed
listed =
    record { id = 9; pad = 1 }
    ∷ record { id = 8; pad = 3 }
    ∷ record { id = 7; pad = 2 }
    ∷ record { id = 6; pad = 0 }
    ∷ []

reset_devices-IsSeated_example :
    IsSeated (reset_devices listed lost)
    × (first_members (reset_devices listed lost).member_count (reset_devices listed lost).member
        ≡ listed_members lost.player lost.player_count listed)
reset_devices-IsSeated_example =
    reset_devices-IsSeated listed lost
      (record { few = both-IsSeated.few; distinct = both-IsSeated.distinct })
