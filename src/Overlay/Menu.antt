-- ===== src/Overlay/Menu.antt =====
-- guest/overlay.c: the screens of the menu (screens, top, push, select_row), the stacks of views of the
-- dashboard and of each profile's guide, and what the menu reads of the games and the devices.
mod Screens
pub mod Rows
pub mod Act
pub mod Navigate
pub mod Requests
pub mod Stacks
pub mod Laid
pub mod Places
pub mod Tops
pub mod Lobbies
pub mod Acting
pub mod Running
pub mod Navigating
pub mod Pressing
pub mod Opening
pub mod Selection
pub mod Broken
mod Tests
unfoldable pub use Screens.*
use anyconsole.Base.{
  ℕ, ◌+◌, ◌-◌, Bool, true, false, not, ◌&&◌, ◌||◌, Option, none, some, List, [], ◌∷◌, ltb, leb,
  ◌==◌, if◌then◌else◌,
}
use anyconsole.Overlay.Players.{Owned, Lobby}

-- What the menu reads and does not change: the tables of games, devices and stores, the files, and
-- whether a program or a capture can be started.
pub record World : Type 0 where
  pub listed : Screen → List ℕ
  pub has_job : ℕ → Bool
  pub installed : ℕ → Bool
  pub sold : ℕ → ℕ → Bool
  pub store_count : ℕ
  pub rewinds : ℕ → Bool
  pub restarting : ℕ → Bool
  pub has_analog_row : ℕ → Bool
  pub is_analog : ℕ → Bool
  pub has_second_screen : ℕ → Bool
  pub upscalable : ℕ → Bool
  pub upscalable_games : List ℕ
  pub any_upscalable : Bool
  pub has_window : ℕ → Bool
  pub outputs : List ℕ
  pub microphones : List ℕ
  pub has_bluetooth : Bool
  pub paired : List Bool
  pub has_city : Bool
  pub slot_filled : ℕ → ℕ → Bool
  pub rewind_slots : List ℕ
  pub script_takes : Command → Bool
  pub has_guide_button : ℕ → Bool
  pub has_session : Bool
  pub can_capture : Bool
  pub can_start : ℕ → Bool

-- The globals of the menu. The picker's view is made of its selected row, which is in the lobby, and of
-- that row's action and arg. `is_broken` is set where the source takes a depth below 0.
pub record Menu : Type 0 where
  pub lobby : Lobby
  pub dashboard : ℕ → View
  pub guides : ℕ → ℕ → View
  pub whois_row : Row
  pub guide_profile : ℕ
  pub active : Option ℕ
  pub rewind_back : ℕ
  pub save_slot : ℕ
  pub mode_staged : Bool
  pub capture_current : Bool
  pub paint_needed : Bool
  pub repeating : Command
  pub repeating_device : ℕ
  pub repeat_runs : Bool
  pub is_broken : Bool
  pub calls : List Call

abbrev pub call : Call → Menu → Menu
call c m = record m { calls = c ∷ m.calls }

-- DEPTH_MAX, PROFILES + 1 and SAVE_SLOTS.
abbrev pub depth_max : ℕ
depth_max = 4

abbrev pub save_slots : ℕ
save_slots = 10

abbrev pub depth_of : Menu → ℕ
depth_of m = m.lobby.guide_depths m.guide_profile

-- With a depth of 0 the source reads before the array: the theorems exclude it.
abbrev pub guide_view : Menu → View
guide_view m = m.guides m.guide_profile (depth_of m - 1)

abbrev pub picker_view : Menu → View
picker_view m = record {
  screen = Screen.whois;
  game = none;
  selected = m.lobby.whois_selected;
  action = m.whois_row.action;
  arg = m.whois_row.arg;
  tab = Tab.game_tab;
}

abbrev pub is_open : Option ℕ → Bool
is_open none = false
is_open (some d) = true

unfoldable pub top : Menu → View
top m =
    if is_open m.lobby.picker
    then picker_view m
    else if m.lobby.guide_shown
    then guide_view m
    else m.dashboard (m.lobby.dashboard_depth - 1)

abbrev pub write_view : (ℕ → View) → ℕ → View → ℕ → View
write_view views i v k = if i == k then v else views k

abbrev pub with_picker_view : View → Menu → Menu
with_picker_view v m = record m {
  lobby = record m.lobby { whois_selected = v.selected };
  whois_row = record { action = v.action; arg = v.arg };
}

abbrev pub write_guide : ℕ → ℕ → View → Menu → Menu
write_guide profile i v m = record m {
  guides = λ p. if profile == p then write_view (m.guides p) i v else m.guides p;
}

abbrev pub write_dashboard : ℕ → View → Menu → Menu
write_dashboard i v m = record m { dashboard = write_view m.dashboard i v }

-- A write through the pointer that `top` returns.
unfoldable pub set_top : View → Menu → Menu
set_top v m =
    if is_open m.lobby.picker
    then with_picker_view v m
    else if m.lobby.guide_shown
    then write_guide m.guide_profile (depth_of m - 1) v m
    else write_dashboard (m.lobby.dashboard_depth - 1) v m

abbrev pub in_game : Menu → Bool
in_game m = is_open m.active && not m.lobby.dashboard_open

unfoldable pub interactive : Menu → Bool
interactive m = m.lobby.dashboard_open || m.lobby.guide_shown || is_open m.lobby.picker

abbrev pub set_depth : ℕ → ℕ → Menu → Menu
set_depth profile depth m = record m {
  lobby = record m.lobby {
    guide_depths = λ p. if profile == p then depth else m.lobby.guide_depths p;
  };
}

-- guide_depths[guide_profile]--
unfoldable pub pop_guide : Menu → Menu
pop_guide m =
    if depth_of m == 0
    then record m { is_broken = true }
    else set_depth m.guide_profile (depth_of m - 1) m

-- guides[guide_profile][guide_depths[guide_profile]++] = view
unfoldable pub push_guide : View → Menu → Menu
push_guide v m =
    set_depth m.guide_profile (depth_of m + 1) (write_guide m.guide_profile (depth_of m) v m)

unfoldable pub push_dashboard : View → Menu → Menu
push_dashboard v m =
    let w = write_dashboard m.lobby.dashboard_depth v m in
    record w { lobby = record w.lobby { dashboard_depth = m.lobby.dashboard_depth + 1 } }

unfoldable pub push : Screen → Option ℕ → Menu → Menu
push screen shown m =
    if m.lobby.guide_shown
    then if ltb (depth_of m) depth_max then push_guide (new_view screen shown) m else m
    else if ltb m.lobby.dashboard_depth depth_max
    then push_dashboard (new_view screen shown) m
    else m

abbrev pub hide_guide : Menu → Menu
hide_guide m = record m { lobby = record m.lobby { guide_shown = false } }

abbrev pub show_guide : Menu → Menu
show_guide m = record m { lobby = record m.lobby { guide_shown = true } }

abbrev pub set_changed : Menu → Menu
set_changed m = record m { lobby = record m.lobby { is_changed = true } }
