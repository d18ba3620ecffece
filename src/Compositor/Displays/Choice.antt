-- ===== src/Compositor/Displays/Choice.antt =====
-- guest/compositor.c: the display that shows the picture (activate, hand_over, choose_display,
-- on_new_output, on_display_destroy). `accepts` is what wlr_output_test_state answers.
use Prim.Native.String.{String}
use anyconsole.Base.{
  ℕ, suc, Bool, true, false, not, ◌&&◌, ◌||◌, Option, none, some, List, [], ◌∷◌, ◌==◌,
  if◌then◌else◌,
}
use anyconsole.Compositor.Displays.{
  Mode, Display, Call, Screens, best_of, games_running, display_mode,
}

abbrev pub id_of : Option Display → Option ℕ
id_of none = none
id_of (some d) = some d.id

abbrev pub is_id : Option ℕ → ℕ → Bool
is_id none id = false
is_id (some i) id = i == id

abbrev pub same_id : Option ℕ → Option ℕ → Bool
same_id none none = true
same_id none (some j) = false
same_id (some i) none = false
same_id (some i) (some j) = i == j

abbrev called : Call → Screens → Screens
called c s = record s { calls = c ∷ s.calls }

unfoldable pub hand_over : ℕ → Screens → Screens
hand_over gpu s = called (Call.write_gpu gpu) (record s { stopping = true })

-- The best display, where another GPU has to render for it.
unfoldable pub pending_of : Screens → Option Display → Option Display
pending_of s none = none
pending_of s (some best) =
    if not (best.gpu == s.render_gpu) && (s.gpus best.gpu).renders then some best else none

unfoldable pub wanted_display : Option Display → Option Display → Option Display → Option Display
wanted_display none active best = best
wanted_display (some p) none best = best
wanted_display (some p) (some a) best = some a

unfoldable pub remove_display : ℕ → List Display → List Display
remove_display id [] = []
remove_display id (d ∷ ds) = if d.id == id then ds else d ∷ remove_display id ds

abbrev forget_display : ℕ → Option Display → Option Display
forget_display id d = if is_id (id_of d) id then none else d

module _ (print : Mode → String) (accepts : ℕ → Mode → Bool) where
  -- A display is enabled in its mode, or in the preferred one where the output refuses that, and the
  -- others are disabled.
  unfoldable pub activate_each : Option ℕ → List Display → Screens → Screens
  activate_each wanted [] s = s
  activate_each wanted (d ∷ ds) s =
      let mode = display_mode print s d in
      activate_each wanted ds (
        if is_id wanted d.id
        then called (Call.commit d.id (some (if accepts d.id mode then mode else d.preferred)))
            (record s { applied_mode = some mode.id })
        else called (Call.commit d.id none) s)

  unfoldable pub activate : Option Display → Screens → Screens
  activate wanted s =
      let t = activate_each (id_of wanted) s.displays s in
      called Call.redraw
        (called Call.configure_overlay (called Call.forget_still (record t { active = wanted })))

  -- wanted && display_mode(wanted->output) != applied_mode
  unfoldable pub changes_mode : Screens → Option Display → Bool
  changes_mode s none = false
  changes_mode s (some d) = not (is_id s.applied_mode (display_mode print s d).id)

  unfoldable pub show_display : Option Display → Screens → Screens
  show_display wanted s =
      let t =
        if not (same_id (id_of wanted) (id_of s.active)) || changes_mode s wanted
        then activate wanted s
        else s in
      called Call.write_state (called Call.update_canvas t)

  unfoldable pub leave_gpu : Option Display → Option Display → Screens → Screens
  leave_gpu none best s = show_display (wanted_display none s.active best) s
  leave_gpu (some p) best s =
      if games_running s.sandboxed
      then show_display (wanted_display (some p) s.active best) s
      else hand_over p.gpu s

  unfoldable pub choose_display : Screens → Screens
  choose_display s =
      if s.stopping
      then s
      else (let best = best_of s s.displays none in
          let pending = pending_of s best in
          leave_gpu pending best (record s { pending = pending }))

  unfoldable pub on_display_destroy : ℕ → Screens → Screens
  on_display_destroy id s = choose_display (record s {
    displays = remove_display id s.displays;
    active = forget_display id s.active;
    pending = forget_display id s.pending;
  })

  -- The output stands for a display without its number of connections.
  unfoldable pub on_new_output : Display → Screens → Screens
  on_new_output output s =
      let connections = if s.started then suc s.connections else s.connections in
      let entry : Display = record output { connected = if s.started then connections else 0 } in
      let t : Screens = record s { connections = connections; displays = entry ∷ s.displays } in
      if s.started then choose_display t else t
