-- ===== src/Overlay/Menu/Running.antt =====
-- A row that fits the screen on top keeps the menu sound, whatever it does: run, act, press_row, adjust.
use anyconsole.Base.{
  ℕ, ◌≡◌, refl, sym, ◌∙◌, subst, Bool, true, false, not, none, some, arith, if_both, ◌==◌,
}
use anyconsole.Overlay.Menu.{
  Screen, plane_of, Action, Command, Row, View, Call, World, Menu, call, top, pop_guide,
}
use anyconsole.Overlay.Menu.Rows.{action_number}
use anyconsole.Overlay.Menu.Act.{
  resume, press_save_states, discard_staged, apply_staged, owns_games, run, is_dialog, act,
  press_row, step_rewind, step_slot, is_setting, adjust,
}
use anyconsole.Overlay.Menu.Places.{Place, place, suits}
use anyconsole.Overlay.Menu.Tops.{Placed, suits-Placed, dialog-deep, dialog-Placed}
use anyconsole.Overlay.Menu.Acting.{
  IsMenu, called, set_top-IsMenu, pop_guide-IsMenu, push_over, push_under, on_game-IsMenu,
  resume-IsMenu, play_row-IsMenu, load_rewind-IsMenu, load_saved-IsMenu, save_to_slot-IsMenu,
  show_dashboard-IsMenu, login-IsMenu, logout-IsMenu,
}

discard_staged-IsMenu : (m : Menu) → IsMenu m → IsMenu (discard_staged m)
unfolding discard_staged
discard_staged-IsMenu m h = record { seated = h.seated; laid = h.laid }

apply_staged-IsMenu : (m : Menu) → IsMenu m → IsMenu (apply_staged m)
unfolding apply_staged
apply_staged-IsMenu m h =
    discard_staged-IsMenu _ (if_both IsMenu m.mode_staged (λ e. called Call.set_mode h) (λ e. h))

-- Applying a mode leaves the view on top where it is.
apply_staged-top : (m : Menu) → (top (apply_staged m)).screen ≡ (top m).screen
unfolding apply_staged discard_staged top
apply_staged-top m =
    if_both (λ n. (top (discard_staged n)).screen ≡ (top m).screen) m.mode_staged (λ e. refl)
      (λ e. refl)

run-IsMenu :
    (w : World) (v : View) (r : Row) (profile : ℕ) (a : Action) (m : Menu)
    → (a ≡ Action.apply_mode → v.screen ≡ (top m).screen)
    → Placed (place a) m
    → IsMenu m
    → IsMenu (run w v r profile a m)
unfolding run place plane_of discard_staged
run-IsMenu w v r profile Action.rewind m k p h = load_rewind-IsMenu w m h
run-IsMenu w v r profile Action.save_states m k p h = load_saved-IsMenu w m h
run-IsMenu w v r profile Action.delete_state m k p h = called _ h
run-IsMenu w v r profile Action.overwrite_state m k p h = save_to_slot-IsMenu m h
run-IsMenu w v r profile Action.clear_thumbnails m k p h = called _ h
run-IsMenu w v r profile Action.login m k p h = login-IsMenu r.arg m.lobby.picker m h
run-IsMenu w v r profile Action.log_out_player m k p h =
    if_both IsMenu (owns_games m.guide_profile m.lobby.games)
      (λ e. push_over Screen.log_out none m p refl h) (λ e. logout-IsMenu m.guide_profile m h)
run-IsMenu w v r profile Action.confirm_log_out m k p h = logout-IsMenu m.guide_profile m h
run-IsMenu w v r profile Action.open_store m k p h =
    called Call.refresh (push_under Screen.store none m p refl h)
run-IsMenu w v r profile Action.open_all_games m k p h = push_under Screen.all_games none m p refl h
run-IsMenu w v r profile Action.open_settings m k p h =
    push_under Screen.settings none (discard_staged m) p refl (discard_staged-IsMenu m h)
run-IsMenu w v r profile Action.apply_mode m k p h =
    set_top-IsMenu _ (apply_staged m) (k refl ∙ sym (apply_staged-top m)) (apply_staged-IsMenu m h)
run-IsMenu w v r profile Action.open_resolutions m k p h =
    push_under Screen.platform_resolutions none m p refl h
run-IsMenu w v r profile Action.open_game m k p h = push_under Screen.game (some r.arg) m p refl h
run-IsMenu w v r profile Action.play m k p h =
    on_game-IsMenu v.game _ m (λ i. play_row-IsMenu w profile i m h) h
run-IsMenu w v r profile Action.resume m k p h =
    on_game-IsMenu v.game resume m (λ i. resume-IsMenu i m h) h
run-IsMenu w v r profile Action.close m k p h = on_game-IsMenu v.game _ m (λ i. called _ h) h
run-IsMenu w v r profile Action.uninstall m k p h = on_game-IsMenu v.game _ m (λ i. called _ h) h
run-IsMenu w v r profile Action.install m k p h = on_game-IsMenu v.game _ m (λ i. called _ h) h
run-IsMenu w v r profile Action.show_dashboard m k p h = show_dashboard-IsMenu m h
run-IsMenu w v r profile Action.open_outputs m k p h = push_over Screen.outputs none m p refl h
run-IsMenu w v r profile Action.open_microphones m k p h =
    push_over Screen.microphones none m p refl h
run-IsMenu w v r profile Action.set_device m k p h =
    pop_guide-IsMenu (call (Call.set_default r.arg) m) p.1 (called _ h)
run-IsMenu w v r profile Action.open_controllers m k p h =
    called Call.batteries (push_over Screen.controllers none m p refl h)
run-IsMenu w v r profile Action.pair m k p h = called _ h
run-IsMenu w v r profile Action.open_controller m k p h =
    push_over Screen.controller none (call (Call.open_controller r.arg) m) p refl (called _ h)
run-IsMenu w v r profile Action.forget m k p h =
    pop_guide-IsMenu (call Call.forget m) p.1 (called _ h)
run-IsMenu w v r profile Action.reload m k p h = called _ h
run-IsMenu w v r profile Action.restart m k p h = called _ h
run-IsMenu w v r profile Action.power_off m k p h = called _ h
run-IsMenu w v r profile a m k p h = h

dialog-apply_mode :
    (a : Action) (s : Screen) {P : Type 0}
    → is_dialog (plane_of s) ≡ true
    → suits (place a) s ≡ true
    → a ≡ Action.apply_mode
    → P
unfolding place
dialog-apply_mode a s d fits e = absurd (
    let g : not (is_dialog (plane_of s)) ≡ true = subst (λ b. suits (place b) s ≡ true) e fits in
    ground arith)

-- A row that fits the view on top, pressed.
pub act-IsMenu :
    (w : World) (r : Row) (profile : ℕ) (m : Menu)
    → suits (place r.action) (top m).screen ≡ true
    → IsMenu m
    → IsMenu (act w r profile m)
unfolding act
act-IsMenu w r profile m fits h =
    if_both (λ n. IsMenu (run w (top m) r profile r.action n)) (is_dialog (plane_of (top m).screen))
      (λ d.
        run-IsMenu w (top m) r profile r.action (pop_guide m)
          (λ e. dialog-apply_mode r.action (top m).screen d fits e)
          (dialog-Placed (pop_guide m) (place r.action) (top m).screen d fits)
          (pop_guide-IsMenu m (dialog-deep m h.laid d) h))
      λ d.
        run-IsMenu w (top m) r profile r.action m (λ e. refl)
          (suits-Placed m (place r.action) h.laid fits) h

press_save_states-IsMenu :
    (w : World) (pressed : Command) (m : Menu)
    → m.lobby.guide_shown ≡ true
    → IsMenu m
    → IsMenu (press_save_states w pressed m)
unfolding press_save_states plane_of
press_save_states-IsMenu w Command.x_button m s h =
    if_both IsMenu (w.slot_filled m.guide_profile m.save_slot)
      (λ e. push_over Screen.overwrite_dialog none m s refl h) (λ e. save_to_slot-IsMenu m h)
press_save_states-IsMenu w Command.y_button m s h =
    if_both IsMenu (w.slot_filled m.guide_profile m.save_slot)
      (λ e. push_over Screen.delete_dialog none m s refl h) (λ e. h)
press_save_states-IsMenu w pressed m s h = h

saves_only :
    (a : Action)
    → (action_number a == action_number Action.save_states) ≡ true
    → place a ≡ Place.guide
unfolding action_number place
saves_only Action.save_states e = refl
saves_only a e = absurd (cc)

pub press_row-IsMenu :
    (w : World) (r : Row) (pressed : Command) (profile : ℕ) (m : Menu)
    → suits (place r.action) (top m).screen ≡ true
    → IsMenu m
    → IsMenu (press_row w r pressed profile m)
unfolding press_row
press_row-IsMenu w r Command.confirm profile m fits h = act-IsMenu w r profile m fits h
press_row-IsMenu w r pressed profile m fits h =
    if_both IsMenu (action_number r.action == action_number Action.save_states)
      (λ e.
        press_save_states-IsMenu w pressed m
          (suits-Placed m Place.guide h.laid
            (subst (λ p. suits p (top m).screen ≡ true) (saves_only r.action e) fits))
          h)
      (λ e. h)

step_rewind-IsMenu :
    (w : World) (forward : Bool) (m : Menu) → IsMenu m → IsMenu (step_rewind w forward m)
unfolding step_rewind
step_rewind-IsMenu w true m h =
    if_both IsMenu _ (λ e. record { seated = h.seated; laid = h.laid }) (λ e. h)
step_rewind-IsMenu w false m h =
    if_both IsMenu _ (λ e. record { seated = h.seated; laid = h.laid }) (λ e. h)

step_slot-IsMenu : (forward : Bool) (m : Menu) → IsMenu m → IsMenu (step_slot forward m)
unfolding step_slot
step_slot-IsMenu true m h =
    if_both IsMenu _ (λ e. record { seated = h.seated; laid = h.laid }) (λ e. h)
step_slot-IsMenu false m h =
    if_both IsMenu _ (λ e. record { seated = h.seated; laid = h.laid }) (λ e. h)

pub adjust-IsMenu :
    (w : World) (a : Action) (arg : ℕ) (forward : Bool) (m : Menu)
    → IsMenu m
    → IsMenu (adjust w a arg forward m)
unfolding adjust
adjust-IsMenu w Action.rewind arg forward m h = step_rewind-IsMenu w forward m h
adjust-IsMenu w Action.save_states arg forward m h = step_slot-IsMenu forward m h
adjust-IsMenu w a arg forward m h =
    if_both IsMenu (is_setting a) (λ e. called (Call.adjust a arg forward) h) (λ e. h)
