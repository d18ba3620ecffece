-- ===== src/Overlay/Menu/Places.antt =====
-- Each row stands on a screen that it fits, and the screen on top says which stack is on top.
use anyconsole.Base.{
  ℕ, zero, suc, ◌≡◌, refl, sym, subst, Bool, true, false, not, ◌&&◌, Option, none, some, List, [],
  ◌∷◌, ◌++◌, map, if◌then◌else◌, get_elem?,
}
use mathlib.Core.Option.{some-injective, some-ne-none}
use anyconsole.Overlay.Players.{profiles_max}
use anyconsole.Overlay.Menu.{Screen, Plane, plane_of, Action, Row, Tab, View, World, Menu}
use anyconsole.Overlay.Menu.Rows.{
  row, row_if, rows_if, store_rows, game_rows, display_mode_rows, active_rows, tab_rows, login_rows,
  controller_rows, settings_rows, screen_rows, rewindable, has_player, is_running, tab_of,
}
use anyconsole.Overlay.Menu.Act.{is_dialog}
use anyconsole.Overlay.Menu.Navigate.{is_guide}
use anyconsole.Overlay.Menu.Stacks.{on_dashboard}

pub data Place : Type 0 where
  anywhere dashboard guide inner steady : Place

-- The rows that push a view on the dashboard or on the guide, those that leave a view of the guide, and
-- the one that writes to its own view.
unfoldable pub place : Action → Place
place Action.open_store = dashboard
place Action.open_all_games = dashboard
place Action.open_settings = dashboard
place Action.open_resolutions = dashboard
place Action.open_game = dashboard
place Action.log_out_player = guide
place Action.open_outputs = guide
place Action.open_microphones = guide
place Action.open_controllers = guide
place Action.open_controller = guide
place Action.save_states = guide
place Action.set_device = inner
place Action.forget = inner
place Action.apply_mode = steady
place action = anywhere

abbrev pub in_guide : Plane → Bool
in_guide Plane.guide_plane = true
in_guide plane = false

abbrev pub suits : Place → Screen → Bool
suits anywhere screen = true
suits dashboard screen = on_dashboard screen
suits guide screen = in_guide (plane_of screen)
suits inner screen = in_guide (plane_of screen) && not (is_guide screen)
suits steady screen = not (is_dialog (plane_of screen))

abbrev pub Fits : Screen → Row → Type 0
Fits screen r = suits (place r.action) screen ≡ true

-- Rows that all fit a screen.
pub record AllFit (screen : Screen) (rows : List Row) : Type 0 where
  pub each : (i : ℕ) {r : Row} → get_elem? rows i ≡ some r → Fits screen r

module _ {screen : Screen} where
  no_rows : AllFit screen []
  no_rows = record { each = λ i e. absurd (some-ne-none _ (sym e)) }

  more : {r : Row} {rows : List Row} → Fits screen r → AllFit screen rows → AllFit screen (r ∷ rows)
  more {r} {rows} h k = record { each = go }
    where
      go : (i : ℕ) {q : Row} → get_elem? (r ∷ rows) i ≡ some q → Fits screen q
      go zero e = subst (Fits screen) (some-injective _ _ e) h
      go (suc i) e = k.each i e

  both : {xs ys : List Row} → AllFit screen xs → AllFit screen ys → AllFit screen (xs ++ ys)
  both {xs = []} h k = k
  both {xs = x ∷ xs} h k =
      more (h.each 0 refl) (both {xs = xs} (record { each = λ i e. h.each (suc i) e }) k)

  row_if-AllFit :
      (b : Bool) (a : Action) → suits (place a) screen ≡ true → AllFit screen (row_if b a)
  row_if-AllFit true a h = more h no_rows
  row_if-AllFit false a h = no_rows

  rows_if-AllFit :
      (b : Bool) {rows : List Row} → AllFit screen rows → AllFit screen (rows_if b rows)
  rows_if-AllFit true h = h
  rows_if-AllFit false h = no_rows

  if-AllFit :
      (b : Bool) {xs ys : List Row}
      → AllFit screen xs
      → AllFit screen ys
      → AllFit screen (if b then xs else ys)
  if-AllFit true h k = h
  if-AllFit false h k = k

  map-AllFit :
      (a : Action) (args : List ℕ)
      → suits (place a) screen ≡ true
      → AllFit screen (map (row a) args)
  map-AllFit a [] h = no_rows
  map-AllFit a (i ∷ rest) h = more h (map-AllFit a rest h)

  display_mode_rows-AllFit :
      (m : Menu)
      → suits (place Action.apply_mode) screen ≡ true
      → AllFit screen (display_mode_rows m)
  unfolding display_mode_rows place
  display_mode_rows-AllFit m h = more refl (row_if-AllFit m.mode_staged Action.apply_mode h)

  login_rows-AllFit : (n : ℕ) → AllFit screen (login_rows n)
  unfolding login_rows place
  login_rows-AllFit zero = no_rows
  login_rows-AllFit (suc n) = both (login_rows-AllFit n) (more refl no_rows)

  store_rows-AllFit : (w : World) (i n : ℕ) → AllFit screen (store_rows w i n)
  unfolding store_rows place
  store_rows-AllFit w i zero = no_rows
  store_rows-AllFit w i (suc n) =
      both (store_rows-AllFit w i n) (if-AllFit (w.sold i n) (more refl no_rows) no_rows)

  game_rows-AllFit : (w : World) (m : Menu) (shown : Option ℕ) → AllFit screen (game_rows w m shown)
  unfolding game_rows place
  game_rows-AllFit w m none = no_rows
  game_rows-AllFit w m (some i) = if-AllFit (is_running m i) (more refl (more refl no_rows)) (
      if-AllFit (w.has_job i) (more refl no_rows) (
        if-AllFit (w.installed i) (more refl (more refl no_rows))
          (store_rows-AllFit w i w.store_count)))

active_rows-AllFit :
    (w : World) (m : Menu) (active : Option ℕ) → AllFit Screen.guide (active_rows w m active)
unfolding active_rows place
active_rows-AllFit w m none = more refl no_rows
active_rows-AllFit w m (some i) = both (row_if-AllFit _ Action.analog refl) (
    both (row_if-AllFit _ Action.emulate refl) (
      both (row_if-AllFit _ Action.second_screen refl)
        (more refl (rows_if-AllFit (w.upscalable i) (more refl no_rows)))))

tab_rows-AllFit : (w : World) (m : Menu) (tab : Tab) → AllFit Screen.guide (tab_rows w m tab)
unfolding tab_rows place plane_of
tab_rows-AllFit w m Tab.game_tab = more refl (
    both (row_if-AllFit (rewindable w m) Action.rewind refl) (
      both (row_if-AllFit (rewindable w m && has_player m) Action.save_states refl)
        (active_rows-AllFit w m m.active)))
tab_rows-AllFit w m Tab.devices_tab =
    more refl (more refl (more refl (more refl (more refl no_rows))))
tab_rows-AllFit w m Tab.system_tab =
    both (display_mode_rows-AllFit m refl) (more refl (more refl (more refl (more refl no_rows))))

controller_rows-AllFit :
    (i : ℕ) (paired : List Bool) → AllFit Screen.controllers (controller_rows i paired)
unfolding controller_rows place plane_of
controller_rows-AllFit i [] = no_rows
controller_rows-AllFit i (true ∷ rest) = more refl (controller_rows-AllFit (suc i) rest)
controller_rows-AllFit i (false ∷ rest) = more refl (controller_rows-AllFit (suc i) rest)

settings_rows-AllFit : (w : World) (m : Menu) → AllFit Screen.settings (settings_rows w m)
unfolding settings_rows place plane_of
settings_rows-AllFit w m = more refl (
    both (display_mode_rows-AllFit m refl) (
      both (row_if-AllFit w.any_upscalable Action.open_resolutions refl) (
        more refl (
          more refl (
            more refl (
              more refl (
                more refl (
                  more refl (
                    both (row_if-AllFit w.has_city Action.choose_city refl)
                      (more refl no_rows))))))))))

-- Every row of a screen fits it: it opens a view of the screen's own stack, and it leaves the view only
-- where there is another below.
pub screen_rows-AllFit :
    (w : World) (m : Menu) (v : View) (screen : Screen) → AllFit screen (screen_rows w m v screen)
unfolding screen_rows place plane_of
screen_rows-AllFit w m v Screen.home =
    both (map-AllFit Action.open_game (w.listed Screen.home) refl)
      (more refl (more refl (more refl no_rows)))
screen_rows-AllFit w m v Screen.all_games =
    map-AllFit Action.open_game (w.listed Screen.all_games) refl
screen_rows-AllFit w m v Screen.store = map-AllFit Action.open_game (w.listed Screen.store) refl
screen_rows-AllFit w m v Screen.game = game_rows-AllFit w m v.game
screen_rows-AllFit w m v Screen.guide = tab_rows-AllFit w m (tab_of m v)
screen_rows-AllFit w m v Screen.outputs = map-AllFit Action.set_device w.outputs refl
screen_rows-AllFit w m v Screen.microphones = map-AllFit Action.set_device w.microphones refl
screen_rows-AllFit w m v Screen.controllers =
    both (row_if-AllFit w.has_bluetooth Action.pair refl) (controller_rows-AllFit 0 w.paired)
screen_rows-AllFit w m v Screen.controller = more refl no_rows
screen_rows-AllFit w m v Screen.settings = settings_rows-AllFit w m
screen_rows-AllFit w m v Screen.platform_resolutions =
    map-AllFit Action.choose_resolution w.upscalable_games refl
screen_rows-AllFit w m v Screen.whois = login_rows-AllFit profiles_max
screen_rows-AllFit w m v Screen.log_out = more refl no_rows
screen_rows-AllFit w m v Screen.attract = no_rows
screen_rows-AllFit w m v Screen.delete_dialog =
    row_if-AllFit (rewindable w m) Action.delete_state refl
screen_rows-AllFit w m v Screen.overwrite_dialog =
    row_if-AllFit (rewindable w m) Action.overwrite_state refl
