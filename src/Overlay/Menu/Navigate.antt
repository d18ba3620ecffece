-- ===== src/Overlay/Menu/Navigate.antt =====
-- guest/overlay.c: what a button of a pad does to the menu (open_guide, enter_guide, toggle_guide,
-- switch_tab, navigate, press, hold).
use anyconsole.Base.{
  ℕ, ◌+◌, ◌-◌, Bool, true, false, not, ◌&&◌, ◌||◌, Option, none, some, List, ltb, leb, ◌==◌,
  if◌then◌else◌, get_elem?, length,
}
use anyconsole.Overlay.Players.{Lobby, profile_of, is_device}
use anyconsole.Overlay.Players
use anyconsole.Overlay.Menu.{
  Screen, Action, Command, Tab, Row, View, Call, World, Menu, call, depth_of, top, write_guide,
  set_top, is_open, in_game, interactive, set_depth, hide_guide, show_guide, set_changed,
}
use anyconsole.Overlay.Menu.Rows.{asks, rewindable, tab_of, build}
use anyconsole.Overlay.Menu.Act.{discard_staged, press_row, adjust}

-- The values of enum command.
unfoldable pub command_number : Command → ℕ
command_number Command.no_command = 0
command_number Command.up = 1
command_number Command.down = 2
command_number Command.page_up = 3
command_number Command.page_down = 4
command_number Command.left = 5
command_number Command.right = 6
command_number Command.confirm = 7
command_number Command.back = 8
command_number Command.guide_button = 9
command_number Command.x_button = 10
command_number Command.y_button = 11

abbrev pub is_command : Command → Command → Bool
is_command c d = command_number c == command_number d

-- command >= UP && command <= RIGHT
abbrev pub is_direction : Command → Bool
is_direction c =
    leb (command_number Command.up) (command_number c)
    && leb (command_number c) (command_number Command.right)

-- command >= UP && command <= PAGE_DOWN
abbrev pub is_move : Command → Bool
is_move c =
    leb (command_number Command.up) (command_number c)
    && leb (command_number c) (command_number Command.page_down)

abbrev pub open_picker : ℕ → Menu → Menu
open_picker device m = record m {
  lobby = Players.open_picker device m.lobby;
  whois_row = record { action = Action.nothing; arg = 0 };
}

abbrev pub await_capture : Menu → Menu
await_capture m = record m { capture_current = true }

-- The guide shows once the screen of the game is captured, or at once where it cannot be.
unfoldable pub open_guide : World → Menu → Menu
open_guide w m =
    let n = discard_staged (record m { rewind_back = 0 }) in
    if not (rewindable w m) || asks m.active w.restarting
    then show_guide n
    else if w.has_session
    then await_capture n
    else if w.can_capture
    then await_capture (call Call.start_capture n)
    else show_guide (call Call.start_capture n)

abbrev pub first_guide : View
first_guide = record {
  screen = Screen.guide;
  game = none;
  selected = 0;
  action = Action.rewind;
  arg = 0;
  tab = Tab.game_tab;
}

unfoldable pub reset_guide : ℕ → Bool → Menu → Menu
reset_guide profile reset m =
    if reset || m.lobby.guide_depths profile == 0
    then set_depth profile 1 (write_guide profile 0 first_guide m)
    else m

unfoldable pub enter_guide : World → ℕ → Option ℕ → Bool → Menu → Menu
enter_guide w profile device reset m =
    let entered = reset_guide profile reset (record m { guide_profile = profile }) in
    let focused = record entered {
      lobby = record entered.lobby { focus = device; input_device = device };
    } in
    if not m.lobby.guide_shown then open_guide w focused else focused

unfoldable pub toggle_guide : World → ℕ → Menu → Menu
toggle_guide w device m =
    if m.lobby.guide_shown && is_device m.lobby.focus device
    then hide_guide m
    else enter_guide w (profile_of m.lobby device) (some device) false m

-- The tab before or after one that is shown; the tab of the game is there in a game only.
unfoldable pub next_tab : Bool → Bool → Tab → Option Tab
next_tab playing true Tab.game_tab = some Tab.devices_tab
next_tab playing true Tab.devices_tab = some Tab.system_tab
next_tab playing true Tab.system_tab = none
next_tab playing false Tab.game_tab = none
next_tab playing false Tab.devices_tab = if playing then some Tab.game_tab else none
next_tab playing false Tab.system_tab = some Tab.devices_tab

abbrev pub tab_view : View → Tab → View
tab_view v tab = record {
  screen = Screen.guide;
  game = v.game;
  selected = 0;
  action = Action.nothing;
  arg = 0;
  tab = tab;
}

abbrev pub to_tab : View → Option Tab → Menu → Menu
to_tab v none m = m
to_tab v (some tab) m = set_changed (set_top (tab_view v tab) m)

unfoldable pub switch_tab : View → Bool → Menu → Menu
switch_tab v forward m = to_tab v (next_tab (in_game m) forward (tab_of m v)) m

unfoldable pub moved : Command → ℕ → ℕ → ℕ
moved Command.up count selected = if ltb 0 selected then selected - 1 else selected
moved Command.down count selected = if ltb selected (count - 1) then selected + 1 else selected
moved Command.page_up count selected = 0
moved Command.page_down count selected = if count == 0 then selected else count - 1
moved pressed count selected = selected

-- select_row; with no rows the view's action and arg stay.
abbrev pub select : Option Row → View → View
select none v = v
select (some r) v = record v { action = r.action; arg = r.arg }

unfoldable pub move : List Row → View → Command → Menu → Menu
move rows v pressed m =
    let selected = moved pressed (length rows) v.selected in
    let n = set_top (select (get_elem? rows selected) (record v { selected = selected })) m in
    if not (selected == v.selected) then set_changed n else n

unfoldable pub go_back : Menu → Menu
go_back m =
    if is_open m.lobby.picker
    then record m { lobby = record m.lobby { picker = none } }
    else if m.lobby.guide_shown && ltb 1 (depth_of m)
    then set_depth m.guide_profile (depth_of m - 1) m
    else if m.lobby.guide_shown
    then hide_guide m
    else if ltb 1 m.lobby.dashboard_depth
    then record m { lobby = record m.lobby { dashboard_depth = m.lobby.dashboard_depth - 1 } }
    else m

abbrev pub on_row : Option Row → (Row → Menu → Menu) → Menu → Menu
on_row none go m = m
on_row (some r) go m = go r m

abbrev pub press_on : World → ℕ → Command → Option Row → Menu → Menu
press_on w device pressed row m =
    on_row row (λ r n. press_row w r pressed (profile_of n.lobby device) n) m

-- The switch of navigate, on the row that is selected.
unfoldable pub use_row : World → ℕ → Option Row → Command → Menu → Menu
use_row w device row Command.left m = on_row row (λ r. adjust w r.action r.arg false) m
use_row w device row Command.right m = on_row row (λ r. adjust w r.action r.arg true) m
use_row w device row Command.confirm m = press_on w device Command.confirm row m
use_row w device row Command.x_button m = press_on w device Command.x_button row m
use_row w device row Command.y_button m = press_on w device Command.y_button row m
use_row w device row Command.back m = go_back m
use_row w device row Command.guide_button m = go_back m
use_row w device row pressed m = m

abbrev pub navigate_rows : World → ℕ → Command → List Row × View → Menu → Menu
navigate_rows w device pressed (rows, v) m =
    if is_move pressed
    then move rows v pressed (set_top v m)
    else set_changed (use_row w device (get_elem? rows v.selected) pressed (set_top v m))

abbrev pub is_guide : Screen → Bool
is_guide Screen.guide = true
is_guide screen = false

abbrev pub by_pad : ℕ → Menu → Menu
by_pad device m = record m {
  paint_needed = true;
  lobby = record m.lobby { input_device = some device };
}

unfoldable pub navigate : World → ℕ → Command → Menu → Menu
navigate w device pressed m =
    let n = by_pad device m in
    let v = top n in
    if w.script_takes pressed && is_direction pressed
    then set_changed n
    else if is_guide v.screen
        && (is_command pressed Command.page_up || is_command pressed Command.page_down)
    then switch_tab v (is_command pressed Command.page_down) n
    else navigate_rows w device pressed (build w n v) n

abbrev pub attract : Menu → Bool
attract m = m.lobby.player_count == 0 && not (is_open m.lobby.picker)

-- A game that has neither a window nor a restart yet, and whose job still runs.
abbrev pub is_prepared : World → ℕ → Bool
is_prepared w i = not (w.has_window i) && not (w.restarting i) && w.has_job i

abbrev pub cancel : Option ℕ → Menu → Menu
cancel none m = m
cancel (some i) m = call (Call.cancel_launch i) m

unfoldable pub press : World → ℕ → Command → Menu → Menu
press w device pressed m =
    if attract m
    then open_picker device m
    else if is_open m.lobby.picker
    then if is_device m.lobby.picker device then navigate w device pressed m else m
    else if profile_of m.lobby device == 0
    then if is_command pressed Command.guide_button || not (w.has_guide_button device)
      then open_picker device m
      else m
    else if is_command pressed Command.guide_button
    then set_changed (toggle_guide w device m)
    else if is_command pressed Command.back && asks m.active (is_prepared w)
    then cancel m.active m
    else if interactive m && (not m.lobby.guide_shown || is_device m.lobby.focus device)
    then navigate w device pressed m
    else m

-- The timer of the repeats runs while a direction is held.
unfoldable pub hold : World → ℕ → Command → Bool → Menu → Menu
hold w device pressed down m =
    let n = if down then press w device pressed m else m in
    if not (is_direction pressed)
      || (not down && (not (is_command pressed n.repeating) || not (device == n.repeating_device))
          || down && not (interactive n))
    then n
    else record n {
      repeating = if down then pressed else Command.no_command;
      repeating_device = device;
      repeat_runs = down;
    }
