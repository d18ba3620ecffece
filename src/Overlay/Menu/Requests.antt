-- ===== src/Overlay/Menu/Requests.antt =====
-- guest/overlay.c: what changes the menu without a pad: a screen that a request asks for (open_screen),
-- and a game that starts or does not (play, with what ended does to the menu).
use anyconsole.Base.{ℕ, Bool, true, false, not, Option, none, some, ◌==◌, if◌then◌else◌}
use anyconsole.Overlay.Players.{first_from}
use anyconsole.Overlay.Menu.{
  Screen, Plane, plane_of, Tab, Call, World, Menu, call, new_view, write_guide, push, push_guide,
}
use anyconsole.Overlay.Menu.Act.{resume, show_dashboard}
use anyconsole.Overlay.Menu.Navigate.{open_picker, enter_guide, is_guide}

abbrev pub is_home : Screen → Bool
is_home Screen.home = true
is_home screen = false

-- The first device that plays for the profile, where the request names none.
abbrev pub device_at : Menu → Option ℕ → Option ℕ
device_at m none = none
device_at m (some i) = some (m.lobby.member i).device

unfoldable pub device_for : ℕ → Option ℕ → Menu → Option ℕ
device_for profile (some device) m = some device
device_for profile none m =
    device_at m (first_from (λ i. (m.lobby.member i).profile == profile) m.lobby.member_count 0)

abbrev pub pick : Option ℕ → Menu → Menu
pick none m = m
pick (some device) m = open_picker device m

abbrev pub open_in_guide : Screen → Option ℕ → Tab → ℕ → Menu → Menu
open_in_guide screen shown tab profile m =
    if is_guide screen
    then write_guide profile 0 (record (m.guides profile 0) { tab = tab }) m
    else push_guide (new_view screen shown) m

abbrev pub open_on_plane : World → Plane → Screen → Option ℕ → Tab → ℕ → Option ℕ → Menu → Menu
open_on_plane w Plane.picker_plane screen shown tab profile device m = pick device m
open_on_plane w Plane.dashboard_plane screen shown tab profile device m =
    if is_home screen then show_dashboard m else push screen shown (show_dashboard m)
open_on_plane w Plane.guide_plane screen shown tab profile device m =
    open_in_guide screen shown tab profile
      (enter_guide w profile (device_for profile device m) true m)
open_on_plane w Plane.dialog_plane screen shown tab profile device m =
    open_in_guide screen shown tab profile
      (enter_guide w profile (device_for profile device m) true m)

unfoldable pub open_screen : World → Screen → Option ℕ → Tab → ℕ → Option ℕ → Menu → Menu
open_screen w screen shown tab profile device m =
    open_on_plane w (plane_of screen) screen shown tab profile device
      (record m { lobby = record m.lobby { picker = none } })

abbrev pub is_active : Option ℕ → ℕ → Bool
is_active none i = false
is_active (some a) i = a == i

-- The menu's part of ended, for a game that could not be started.
unfoldable pub ended : ℕ → Menu → Menu
ended i m =
    let left = if is_active m.active i then record m { active = none } else m in
    call Call.apply_modes (call Call.refresh_rewinds left)

abbrev pub forget_guides : Menu → Menu
forget_guides m = record m { lobby = record m.lobby { guide_depths = λ _. 0 }; save_slot = 0 }

-- `can_listen` is whether the socket and the pipe of the game could be made, and `spawned` whether its
-- program could. A game that resumes from a state keeps the guides.
unfoldable pub play : ℕ → Bool → Bool → Bool → Menu → Menu
play i resuming can_listen spawned m =
    let shown = call (Call.show_game i) (if resuming then m else forget_guides m) in
    if not can_listen
    then m
    else if not spawned
    then ended i shown
    else if resuming
    then shown
    else resume i shown
