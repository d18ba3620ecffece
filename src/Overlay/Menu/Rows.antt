-- ===== src/Overlay/Menu/Rows.antt =====
-- guest/overlay.c: the rows of a view (build), and the row that stays selected as they change.
use anyconsole.Base.{
  ℕ, zero, suc, ◌-◌, Bool, true, false, not, ◌&&◌, Option, none, some, List, [], ◌∷◌, ◌++◌, map,
  leb, ◌==◌, if◌then◌else◌, length,
}
use anyconsole.Overlay.Players.{Owned, profiles_max}
use anyconsole.Overlay.Menu.{Screen, Action, Tab, Row, View, World, Menu, in_game}

-- The values of enum action.
unfoldable pub action_number : Action → ℕ
action_number Action.nothing = 0
action_number Action.open_store = 1
action_number Action.open_settings = 2
action_number Action.open_game = 3
action_number Action.play = 4
action_number Action.resume = 5
action_number Action.close = 6
action_number Action.uninstall = 7
action_number Action.install = 8
action_number Action.show_dashboard = 9
action_number Action.volume = 10
action_number Action.open_outputs = 11
action_number Action.open_microphones = 12
action_number Action.set_device = 13
action_number Action.open_controllers = 14
action_number Action.pair = 15
action_number Action.open_controller = 16
action_number Action.forget = 17
action_number Action.reload = 18
action_number Action.restart = 19
action_number Action.power_off = 20
action_number Action.choose_display = 21
action_number Action.choose_display_mode = 22
action_number Action.apply_mode = 23
action_number Action.open_resolutions = 24
action_number Action.choose_resolution = 25
action_number Action.choose_sleep = 26
action_number Action.rewind = 27
action_number Action.login = 28
action_number Action.emulate = 29
action_number Action.analog = 30
action_number Action.log_out_player = 31
action_number Action.confirm_log_out = 32
action_number Action.microphone_volume = 33
action_number Action.second_screen = 34
action_number Action.choose_skin = 35
action_number Action.clear_thumbnails = 36
action_number Action.save_states = 37
action_number Action.delete_state = 38
action_number Action.overwrite_state = 39
action_number Action.choose_picture = 40
action_number Action.choose_language = 41
action_number Action.choose_game_language = 42
action_number Action.choose_time_zone = 43
action_number Action.choose_city = 44
action_number Action.open_all_games = 45

abbrev pub row : Action → ℕ → Row
row action arg = record { action = action; arg = arg }

-- A row with arg 0 that is there or not.
abbrev pub row_if : Bool → Action → List Row
row_if true action = row action 0 ∷ []
row_if false action = []

abbrev pub rows_if : Bool → List Row → List Row
rows_if true rows = rows
rows_if false rows = []

abbrev pub runs_in : List Owned → ℕ → Bool
runs_in [] i = false
runs_in (g ∷ gs) zero = g.running
runs_in (g ∷ gs) (suc i) = runs_in gs i

-- games[i].pid
abbrev pub is_running : Menu → ℕ → Bool
is_running m i = runs_in m.lobby.games i

abbrev pub asks : Option ℕ → (ℕ → Bool) → Bool
asks none test = false
asks (some i) test = test i

unfoldable pub rewindable : World → Menu → Bool
rewindable w m = in_game m && asks m.active w.rewinds

-- tab_of: in no game the tab of the game stands for that of the devices.
unfoldable pub tab_of : Menu → View → Tab
tab_of m v = if in_game m then v.tab else elim v.tab [
  | Tab.game_tab ↦ Tab.devices_tab
  | Tab.devices_tab ↦ Tab.devices_tab
  | Tab.system_tab ↦ Tab.system_tab
]

abbrev pub open_rows : List ℕ → List Row
open_rows games = map (row Action.open_game) games

unfoldable pub store_rows : World → ℕ → ℕ → List Row
store_rows w game zero = []
store_rows w game (suc store) =
    store_rows w game store ++ (if w.sold game store then row Action.install store ∷ [] else [])

unfoldable pub game_rows : World → Menu → Option ℕ → List Row
game_rows w m none = []
game_rows w m (some game) =
    if is_running m game
    then row Action.resume 0 ∷ row Action.close 0 ∷ []
    else if w.has_job game
    then row Action.nothing 0 ∷ []
    else if w.installed game
    then row Action.play 0 ∷ row Action.uninstall 0 ∷ []
    else store_rows w game w.store_count

unfoldable pub display_mode_rows : Menu → List Row
display_mode_rows m = row Action.choose_display_mode 0 ∷ row_if m.mode_staged Action.apply_mode

abbrev pub has_player : Menu → Bool
has_player m = not (m.guide_profile == 0)

unfoldable pub active_rows : World → Menu → Option ℕ → List Row
active_rows w m none = row Action.choose_picture 0 ∷ []
active_rows w m (some active) =
    row_if (has_player m && w.has_analog_row active) Action.analog
    ++ (row_if
          (not (has_player m && w.has_analog_row active)
            && (has_player m && not (w.is_analog active)))
          Action.emulate
        ++ (row_if (w.has_second_screen active) Action.second_screen
            ++ (row Action.choose_picture 0
                ∷ rows_if (w.upscalable active) (row Action.choose_resolution active ∷ []))))

unfoldable pub tab_rows : World → Menu → Tab → List Row
tab_rows w m Tab.game_tab =
    row Action.show_dashboard 0
    ∷ (row_if (rewindable w m) Action.rewind
        ++ (row_if (rewindable w m && has_player m) Action.save_states ++ active_rows w m m.active))
tab_rows w m Tab.devices_tab =
    row Action.volume 0
    ∷ row Action.open_outputs 0
    ∷ row Action.open_microphones 0
    ∷ row Action.microphone_volume 0
    ∷ row Action.open_controllers 0
    ∷ []
tab_rows w m Tab.system_tab =
    display_mode_rows m
    ++ (row Action.reload 0
        ∷ row Action.restart 0
        ∷ row Action.power_off 0
        ∷ row Action.log_out_player 0
        ∷ [])

-- for (profile = 1; profile <= n; profile++)
unfoldable pub login_rows : ℕ → List Row
login_rows zero = []
login_rows (suc n) = login_rows n ++ (row Action.login (suc n) ∷ [])

abbrev pub device_rows : List ℕ → List Row
device_rows ids = map (row Action.set_device) ids

unfoldable pub controller_rows : ℕ → List Bool → List Row
controller_rows i [] = []
controller_rows i (paired ∷ rest) =
    row (if paired then Action.open_controller else Action.nothing) i ∷ controller_rows (suc i) rest

unfoldable pub settings_rows : World → Menu → List Row
settings_rows w m =
    row Action.choose_display 0
    ∷ (display_mode_rows m
        ++ (row_if w.any_upscalable Action.open_resolutions
            ++ (row Action.choose_picture 0
                ∷ row Action.choose_sleep 0
                ∷ row Action.choose_skin 0
                ∷ row Action.choose_language 0
                ∷ row Action.choose_game_language 0
                ∷ row Action.choose_time_zone 0
                ∷ (row_if w.has_city Action.choose_city ++ (row Action.clear_thumbnails 0 ∷ [])))))

unfoldable pub screen_rows : World → Menu → View → Screen → List Row
screen_rows w m v Screen.home =
    open_rows (w.listed Screen.home)
    ++ (row Action.open_all_games 0 ∷ row Action.open_store 0 ∷ row Action.open_settings 0 ∷ [])
screen_rows w m v Screen.all_games = open_rows (w.listed Screen.all_games)
screen_rows w m v Screen.store = open_rows (w.listed Screen.store)
screen_rows w m v Screen.game = game_rows w m v.game
screen_rows w m v Screen.guide = tab_rows w m (tab_of m v)
screen_rows w m v Screen.outputs = device_rows w.outputs
screen_rows w m v Screen.microphones = device_rows w.microphones
screen_rows w m v Screen.controllers =
    row_if w.has_bluetooth Action.pair ++ controller_rows 0 w.paired
screen_rows w m v Screen.controller = row Action.forget 0 ∷ []
screen_rows w m v Screen.settings = settings_rows w m
screen_rows w m v Screen.platform_resolutions =
    map (row Action.choose_resolution) w.upscalable_games
screen_rows w m v Screen.whois = login_rows profiles_max
screen_rows w m v Screen.log_out = row Action.confirm_log_out 0 ∷ []
screen_rows w m v Screen.attract = []
screen_rows w m v Screen.delete_dialog = row_if (rewindable w m) Action.delete_state
screen_rows w m v Screen.overwrite_dialog = row_if (rewindable w m) Action.overwrite_state

abbrev pub same_row : Action → ℕ → Row → Bool
same_row action arg r = action_number r.action == action_number action && r.arg == arg

-- The last row with the action and the arg, from index `i` on; `found` where there is none.
unfoldable pub last_match : Action → ℕ → List Row → ℕ → ℕ → ℕ
last_match action arg [] i found = found
last_match action arg (r ∷ rs) i found =
    last_match action arg rs (suc i) (if same_row action arg r then i else found)

-- A selection past the end moves to the last row.
unfoldable pub clamp_row : ℕ → ℕ → ℕ
clamp_row count selected =
    if leb count selected then if count == 0 then 0 else count - 1 else selected

-- The rows of a view, and the view with the row that is selected now.
unfoldable pub build : World → Menu → View → List Row × View
build w m v =
    let rows = screen_rows w m v v.screen in
    (
      rows,
      record v { selected = clamp_row (length rows) (last_match v.action v.arg rows 0 v.selected) },
    )
