-- ===== src/Overlay/Menu/Screens.antt =====
-- guest/overlay.c: the screens and their planes, the actions of rows, the commands of a pad, the views,
-- and what the menu asks of the other parts.
use anyconsole.Base.{ℕ, Bool, Option}

pub data Screen : Type 0 where
  home all_games store game guide outputs microphones controllers controller : Screen
  settings platform_resolutions whois log_out attract delete_dialog overwrite_dialog : Screen

pub data Plane : Type 0 where
  dashboard_plane guide_plane picker_plane dialog_plane : Plane

-- The column `plane` of screens[].
unfoldable pub plane_of : Screen → Plane
plane_of home = dashboard_plane
plane_of all_games = dashboard_plane
plane_of store = dashboard_plane
plane_of game = dashboard_plane
plane_of guide = guide_plane
plane_of outputs = guide_plane
plane_of microphones = guide_plane
plane_of controllers = guide_plane
plane_of controller = guide_plane
plane_of settings = dashboard_plane
plane_of platform_resolutions = dashboard_plane
plane_of whois = picker_plane
plane_of log_out = guide_plane
plane_of attract = dashboard_plane
plane_of delete_dialog = dialog_plane
plane_of overwrite_dialog = dialog_plane

pub data Action : Type 0 where
  nothing open_store open_settings open_game play resume close uninstall install : Action
  show_dashboard volume open_outputs open_microphones set_device open_controllers pair : Action
  open_controller forget reload restart power_off choose_display choose_display_mode : Action
  apply_mode open_resolutions choose_resolution choose_sleep rewind login emulate analog : Action
  log_out_player confirm_log_out microphone_volume second_screen choose_skin : Action
  clear_thumbnails save_states delete_state overwrite_state choose_picture choose_language : Action
  choose_game_language choose_time_zone choose_city open_all_games : Action

pub data Command : Type 0 where
  no_command up down page_up page_down left right confirm back guide_button : Command
  x_button y_button : Command

pub data Tab : Type 0 where
  game_tab devices_tab system_tab : Tab

-- struct row, without its texts.
pub record Row : Type 0 where
  pub action : Action
  pub arg : ℕ

-- struct view; a game of -1 is `none`.
pub record View : Type 0 where
  pub screen : Screen
  pub game : Option ℕ
  pub selected : ℕ
  pub action : Action
  pub arg : ℕ
  pub tab : Tab

-- (struct view){.screen = screen, .game = game}
abbrev pub new_view : Screen → Option ℕ → View
new_view screen shown = record {
  screen = screen;
  game = shown;
  selected = 0;
  action = nothing;
  arg = 0;
  tab = game_tab;
}

-- What the menu asks of the rest of the overlay, of padd and of programs, newest first.
pub data Call : Type 0 where
  load_slot remove_states_after : ℕ → Call
  save_state : ℕ → ℕ → Call
  load_unnumbered refresh_rewinds apply_modes : Call
  remove_slot : ℕ → ℕ → Call
  clear_thumbnails refresh set_mode : Call
  owner_missing mark_used launch show_game close_game uninstall : ℕ → Call
  install : ℕ → ℕ → Call
  set_default open_controller : ℕ → Call
  batteries pair forget exit reboot power_off start_capture : Call
  adjust : Action → ℕ → Bool → Call
  cancel_launch : ℕ → Call
