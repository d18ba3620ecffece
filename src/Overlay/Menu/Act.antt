-- ===== src/Overlay/Menu/Act.antt =====
-- guest/overlay.c: what a row does (act, press_row, press_save_states, adjust) and the parts of it that
-- the menu is changed by: resume, launch, load_rewind, load_saved, save_to_slot. A call that leaves the
-- menu as it is stands in `calls`.
use anyconsole.Base.{
  ℕ, zero, suc, ◌+◌, ◌-◌, Bool, true, false, ◌&&◌, ◌||◌, Option, none, some, List, [], ◌∷◌, ltb,
  leb, ◌==◌, if◌then◌else◌, get_elem?, length,
}
use anyconsole.Overlay.Players.{Owned, Lobby, seat_of, login, logout}
use anyconsole.Overlay.Menu.{
  Screen, Plane, plane_of, Action, Command, Row, View, Call, World, Menu, call, save_slots, top,
  write_dashboard, set_top, pop_guide, push, is_open,
}
use anyconsole.Overlay.Menu.Rows.{action_number}

abbrev pub on_game : Option ℕ → (ℕ → Menu → Menu) → Menu → Menu
on_game none go m = m
on_game (some i) go m = go i m

-- dashboard[0] is left at the row of the game.
abbrev pub at_game : ℕ → View → View
at_game i v = record v { action = Action.open_game; arg = i }

unfoldable pub resume : ℕ → Menu → Menu
resume i m =
    let shown = call (Call.show_game i) m in
    let left =
      write_dashboard 0 (at_game i (shown.dashboard 0)) (record shown { active = some i }) in
    let hidden = record left {
      lobby = record left.lobby { dashboard_open = false; guide_shown = false };
    } in
    call Call.apply_modes (call Call.refresh_rewinds hidden)

abbrev pub owner_at : ℕ → List Owned → ℕ
owner_at i [] = 0
owner_at zero (g ∷ gs) = g.owner
owner_at (suc i) (g ∷ gs) = owner_at i gs

abbrev pub set_owner : ℕ → ℕ → List Owned → List Owned
set_owner i profile [] = []
set_owner zero profile (g ∷ gs) = record { owner = profile; running = g.running } ∷ gs
set_owner (suc i) profile (g ∷ gs) = g ∷ set_owner i profile gs

unfoldable pub launch : World → ℕ → Menu → Menu
launch w i m =
    if is_open (seat_of m.lobby (owner_at i m.lobby.games))
    then (let started = call (Call.launch i) (call (Call.mark_used i) m) in
        if w.can_start i then resume i started else started)
    else call (Call.owner_missing i) m

unfoldable pub play_row : World → ℕ → ℕ → Menu → Menu
play_row w profile i m =
    launch w i (record m { lobby = record m.lobby { games = set_owner i profile m.lobby.games } })

-- The slot of a rewind is loaded, those after it are gone, and the game goes on. `rewind_slots` is
-- rewinds[], the oldest first.
unfoldable pub load_rewind : World → Menu → Menu
load_rewind w m =
    if m.rewind_back == 0
    then m
    else elim (get_elem? w.rewind_slots (length w.rewind_slots - m.rewind_back)) [
      | none ↦ m
      | some slot ↦
          on_game m.active resume
            (record (call (Call.remove_states_after slot) (call (Call.load_slot slot) m)) {
              rewind_back = 0;
            })
    ]

unfoldable pub load_saved : World → Menu → Menu
load_saved w m =
    if w.slot_filled m.guide_profile m.save_slot
    then on_game m.active resume (record (call Call.load_unnumbered m) { rewind_back = 0 })
    else m

unfoldable pub save_to_slot : Menu → Menu
save_to_slot m = on_game m.active resume (call (Call.save_state m.guide_profile m.save_slot) m)

unfoldable pub press_save_states : World → Command → Menu → Menu
press_save_states w Command.x_button m =
    if w.slot_filled m.guide_profile m.save_slot
    then push Screen.overwrite_dialog none m
    else save_to_slot m
press_save_states w Command.y_button m =
    if w.slot_filled m.guide_profile m.save_slot then push Screen.delete_dialog none m else m
press_save_states w pressed m = m

unfoldable pub discard_staged : Menu → Menu
discard_staged m = record m { mode_staged = false }

unfoldable pub apply_staged : Menu → Menu
apply_staged m = discard_staged (if m.mode_staged then call Call.set_mode m else m)

abbrev pub on_lobby : (Lobby → Lobby) → Menu → Menu
on_lobby go m = record m { lobby = go m.lobby }

-- owned_games(profile) != 0
abbrev pub owns_games : ℕ → List Owned → Bool
owns_games profile [] = false
owns_games profile (g ∷ gs) = g.owner == profile && g.running || owns_games profile gs

unfoldable pub show_dashboard : Menu → Menu
show_dashboard m = record m {
  lobby = record m.lobby { guide_shown = false; dashboard_open = true; dashboard_depth = 1 };
}

-- The switch of act. `v` is the view that was on top.
unfoldable pub run : World → View → Row → ℕ → Action → Menu → Menu
run w v r profile Action.rewind m = load_rewind w m
run w v r profile Action.save_states m = load_saved w m
run w v r profile Action.delete_state m = call (Call.remove_slot m.guide_profile m.save_slot) m
run w v r profile Action.overwrite_state m = save_to_slot m
run w v r profile Action.clear_thumbnails m = call Call.clear_thumbnails m
run w v r profile Action.login m = on_lobby (login r.arg m.lobby.picker) m
run w v r profile Action.log_out_player m =
    if owns_games m.guide_profile m.lobby.games
    then push Screen.log_out none m
    else on_lobby (logout m.guide_profile) m
run w v r profile Action.confirm_log_out m = on_lobby (logout m.guide_profile) m
run w v r profile Action.open_store m = call Call.refresh (push Screen.store none m)
run w v r profile Action.open_all_games m = push Screen.all_games none m
run w v r profile Action.open_settings m = push Screen.settings none (discard_staged m)
run w v r profile Action.apply_mode m =
    set_top (record v { action = Action.choose_display_mode }) (apply_staged m)
run w v r profile Action.open_resolutions m = push Screen.platform_resolutions none m
run w v r profile Action.open_game m = push Screen.game (some r.arg) m
run w v r profile Action.play m = on_game v.game (play_row w profile) m
run w v r profile Action.resume m = on_game v.game resume m
run w v r profile Action.close m = on_game v.game (λ i. call (Call.close_game i)) m
run w v r profile Action.uninstall m = on_game v.game (λ i. call (Call.uninstall i)) m
run w v r profile Action.install m = on_game v.game (λ i. call (Call.install i (r.arg + 1))) m
run w v r profile Action.show_dashboard m = show_dashboard m
run w v r profile Action.open_outputs m = push Screen.outputs none m
run w v r profile Action.open_microphones m = push Screen.microphones none m
run w v r profile Action.set_device m = pop_guide (call (Call.set_default r.arg) m)
run w v r profile Action.open_controllers m = call Call.batteries (push Screen.controllers none m)
run w v r profile Action.pair m = call Call.pair m
run w v r profile Action.open_controller m =
    push Screen.controller none (call (Call.open_controller r.arg) m)
run w v r profile Action.forget m = pop_guide (call Call.forget m)
run w v r profile Action.reload m = call Call.exit m
run w v r profile Action.restart m = call Call.reboot m
run w v r profile Action.power_off m = call Call.power_off m
run w v r profile action m = m

abbrev pub is_dialog : Plane → Bool
is_dialog Plane.dialog_plane = true
is_dialog plane = false

-- A dialog closes before its row does what it says.
unfoldable pub act : World → Row → ℕ → Menu → Menu
act w r profile m =
    let v = top m in
    run w v r profile r.action (if is_dialog (plane_of v.screen) then pop_guide m else m)

-- The row's own buttons; a row of another kind has none.
unfoldable pub press_row : World → Row → Command → ℕ → Menu → Menu
press_row w r Command.confirm profile m = act w r profile m
press_row w r pressed profile m =
    if action_number r.action == action_number Action.save_states
    then press_save_states w pressed m
    else m

-- rewind_back -= step and save_slot += step, within their bounds. The first is how many states back.
unfoldable pub step_rewind : World → Bool → Menu → Menu
step_rewind w true m =
    if leb 1 m.rewind_back && leb (m.rewind_back - 1) (length w.rewind_slots)
    then record m { rewind_back = m.rewind_back - 1 }
    else m
step_rewind w false m =
    if leb (m.rewind_back + 1) (length w.rewind_slots)
    then record m { rewind_back = m.rewind_back + 1 }
    else m

unfoldable pub step_slot : Bool → Menu → Menu
step_slot true m =
    if ltb (m.save_slot + 1) save_slots then record m { save_slot = m.save_slot + 1 } else m
step_slot false m = if leb 1 m.save_slot then record m { save_slot = m.save_slot - 1 } else m

-- The settings that adjust hands on to the function that steps them.
unfoldable pub is_setting : Action → Bool
is_setting Action.volume = true
is_setting Action.microphone_volume = true
is_setting Action.choose_display = true
is_setting Action.choose_display_mode = true
is_setting Action.choose_resolution = true
is_setting Action.choose_sleep = true
is_setting Action.choose_skin = true
is_setting Action.choose_picture = true
is_setting Action.choose_language = true
is_setting Action.choose_game_language = true
is_setting Action.choose_time_zone = true
is_setting Action.choose_city = true
is_setting Action.emulate = true
is_setting Action.analog = true
is_setting Action.second_screen = true
is_setting action = false

-- A step to the right is `true`. The settings of the system that are stepped are calls.
unfoldable pub adjust : World → Action → ℕ → Bool → Menu → Menu
adjust w Action.rewind arg forward m = step_rewind w forward m
adjust w Action.save_states arg forward m = step_slot forward m
adjust w action arg forward m =
    if is_setting action then call (Call.adjust action arg forward) m else m
