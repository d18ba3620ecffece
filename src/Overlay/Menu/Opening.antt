-- ===== src/Overlay/Menu/Opening.antt =====
-- The screens that a request opens for a player, and the games that start, keep the menu sound:
-- open_screen, play.
use anyconsole.Base.{
  ℕ, ◌<◌, ◌≡◌, refl, ◌∙◌, ap, Bool, true, false, not, ◌||◌, Option, none, some, arith, if_both,
  ◌==◌,
}
use anyconsole.Overlay.Menu.{
  Screen, Plane, plane_of, Tab, View, Call, World, Menu, call, depth_of, new_view, push_guide,
}
use anyconsole.Overlay.Menu.Rows.{asks, rewindable}
use anyconsole.Overlay.Menu.Act.{at_game, resume, discard_staged, show_dashboard}
use anyconsole.Overlay.Menu.Navigate.{open_guide, reset_guide, enter_guide, is_guide}
use anyconsole.Overlay.Menu.Requests.{
  is_home, device_for, pick, open_in_guide, open_on_plane, open_screen, is_active, ended,
  forget_guides, play,
}
use anyconsole.Overlay.Menu.Stacks.{
  is_dashboard_plane, is_guide_plane, on_guide, IsStack-fewer, IsStack-write, Laid,
}
use anyconsole.Overlay.Menu.Laid.{write_guide-Laid, push_guide-Laid}
use anyconsole.Overlay.Menu.Acting.{
  IsMenu, SameSeats, relaid, called, push_under, show_dashboard-IsMenu,
}
use anyconsole.Overlay.Menu.Navigating.{open_picker-IsMenu}
use anyconsole.Overlay.Menu.Pressing.{enter_guide-IsMenu}

-- The guide's profile, and the depths of the guides.
record IsAt (profile : ℕ) (m : Menu) : Type 0 where
  same_profile : m.guide_profile ≡ profile
  one_view : m.lobby.guide_depths profile ≡ 1

open_guide-IsAt :
    (w : World) (profile : ℕ) (m : Menu) → IsAt profile m → IsAt profile (open_guide w m)
unfolding open_guide discard_staged
open_guide-IsAt w profile m h =
    let p = h.same_profile in
    let d = h.one_view in
    if_both (IsAt profile) (not (rewindable w m) || asks m.active w.restarting)
      (λ e. record { same_profile = p; one_view = d })
      λ e.
        if_both (IsAt profile) w.has_session (λ e. record { same_profile = p; one_view = d })
          λ e.
            if_both (IsAt profile) w.can_capture (λ e. record { same_profile = p; one_view = d })
              (λ e. record { same_profile = p; one_view = d })

enter_guide-IsAt :
    (w : World) (profile : ℕ) (device : Option ℕ) (m : Menu)
    → IsAt profile (enter_guide w profile device true m)
unfolding enter_guide reset_guide
enter_guide-IsAt w profile device m =
    let own : (profile == profile) ≡ true = ground arith in
    if_both (IsAt profile) (not m.lobby.guide_shown)
      (λ e. open_guide-IsAt w profile _ (record { same_profile = refl; one_view = rw own refl }))
      (λ e. record { same_profile = refl; one_view = rw own refl })

push_guide-SameSeats : (v : View) (m : Menu) → SameSeats m (push_guide v m)
unfolding push_guide
push_guide-SameSeats v m = record {
  same_member = refl;
  same_members = refl;
  same_player = refl;
  same_players = refl;
}

open_in_guide-IsMenu :
    (screen : Screen) (shown : Option ℕ) (tab : Tab) (profile : ℕ) (m : Menu)
    → on_guide screen ≡ true
    → IsAt profile m
    → IsMenu m
    → IsMenu (open_in_guide screen shown tab profile m)
open_in_guide-IsMenu screen shown tab profile m over at h =
    let one : depth_of m ≡ 1 = ap m.lobby.guide_depths at.same_profile ∙ at.one_view in
    if_both IsMenu (is_guide screen)
      (λ e. record {
        seated = h.seated;
        laid = write_guide-Laid profile 0 (record (m.guides profile 0) { tab = tab }) m refl h.laid;
      })
      λ e. relaid h (push_guide-SameSeats (new_view screen shown) m) (
        push_guide-Laid (new_view screen shown) m (omega (arith, one)) (omega (arith, one)) over
          h.laid)

show_dashboard-hidden : (m : Menu) → (show_dashboard m).lobby.guide_shown ≡ false
unfolding show_dashboard
show_dashboard-hidden m = refl

module _ (w : World) (screen : Screen) (shown : Option ℕ) (tab : Tab) (profile : ℕ)
    (device : Option ℕ) where
  open_on_plane-IsMenu :
      (p : Plane) (m : Menu)
      → plane_of screen ≡ p
      → (is_guide_plane p ≡ true → 0 < m.lobby.player_count)
      → IsMenu m
      → IsMenu (open_on_plane w p screen shown tab profile device m)
  open_on_plane-IsMenu Plane.picker_plane m e players h = chosen device
    where
      chosen : (device : Option ℕ) → IsMenu (pick device m)
      chosen none = h
      chosen (some d) = open_picker-IsMenu d m h
  open_on_plane-IsMenu Plane.dashboard_plane m e players h =
      if_both IsMenu (is_home screen) (λ f. show_dashboard-IsMenu m h)
        λ f.
          push_under screen shown (show_dashboard m) (show_dashboard-hidden m)
            (ap is_dashboard_plane e) (show_dashboard-IsMenu m h)
  open_on_plane-IsMenu Plane.guide_plane m e players h =
      open_in_guide-IsMenu screen shown tab profile _ (ap is_guide_plane e)
        (enter_guide-IsAt w profile (device_for profile device m) m)
        (enter_guide-IsMenu w profile (device_for profile device m) true m (players refl) h)
  open_on_plane-IsMenu Plane.dialog_plane m e players h =
      open_in_guide-IsMenu screen shown tab profile _ (ap is_guide_plane e)
        (enter_guide-IsAt w profile (device_for profile device m) m)
        (enter_guide-IsMenu w profile (device_for profile device m) true m (players refl) h)

  -- From a sound menu, a request opens any screen, for any profile and device, and the menu is sound
  -- after it, provided that somebody plays where the screen is one of the guide's or a dialog.
  pub open_screen-IsMenu :
      (m : Menu)
      → (on_guide screen ≡ true → 0 < m.lobby.player_count)
      → IsMenu m
      → IsMenu (open_screen w screen shown tab profile device m)
  unfolding open_screen
  open_screen-IsMenu m players h =
      open_on_plane-IsMenu (plane_of screen) (record m { lobby = record m.lobby { picker = none } })
        refl players
        (relaid h
          (record {
            same_member = refl;
            same_members = refl;
            same_player = refl;
            same_players = refl;
          })
          h.laid)

ended-IsMenu : (i : ℕ) (m : Menu) → IsMenu m → IsMenu (ended i m)
unfolding ended
ended-IsMenu i m h = called Call.apply_modes (
    called Call.refresh_rewinds (
      if_both IsMenu (is_active m.active i) (λ e. record { seated = h.seated; laid = h.laid })
        (λ e. h)))

forgotten-Laid : (m : Menu) → Laid m → m.lobby.guide_shown ≡ false → Laid (forget_guides m)
forgotten-Laid m h hidden = record {
  low = h.low;
  on_top = h.on_top;
  of_profile = λ p. IsStack-fewer 0 (omega arith) (h.of_profile p);
  shows = λ e. absurd (cc);
  plays = h.plays;
  whole = h.whole;
}

forgotten-IsMenu : (m : Menu) → m.lobby.guide_shown ≡ false → IsMenu m → IsMenu (forget_guides m)
forgotten-IsMenu m hidden h =
    relaid h
      (record { same_member = refl; same_members = refl; same_player = refl; same_players = refl })
      (forgotten-Laid m h.laid hidden)

resumed-IsMenu :
    (i : ℕ) (m : Menu) → IsMenu m → IsMenu (resume i (call (Call.show_game i) (forget_guides m)))
unfolding resume
resumed-IsMenu i m h =
    relaid h
      (record { same_member = refl; same_members = refl; same_player = refl; same_players = refl })
      (record {
        low = h.laid.low;
        on_top = IsStack-write 0 (at_game i (m.dashboard 0)) refl h.laid.on_top;
        of_profile = λ p. IsStack-fewer 0 (omega arith) (h.laid.of_profile p);
        shows = λ e. absurd (cc);
        plays = λ e. absurd (cc);
        whole = h.laid.whole;
      })

-- A game that starts, that resumes from a state, or that cannot even be prepared leaves a sound menu
-- sound; so does one whose program cannot be started, unless a guide shows at that moment.
pub play-IsMenu :
    (i : ℕ) (resuming can_listen spawned : Bool) (m : Menu)
    → (spawned ≡ false → resuming ≡ false → m.lobby.guide_shown ≡ false)
    → IsMenu m
    → IsMenu (play i resuming can_listen spawned m)
unfolding play
play-IsMenu i resuming false spawned m hidden h = h
play-IsMenu i true true false m hidden h = ended-IsMenu i _ (called (Call.show_game i) h)
play-IsMenu i true true true m hidden h = called (Call.show_game i) h
play-IsMenu i false true false m hidden h =
    ended-IsMenu i _ (called (Call.show_game i) (forgotten-IsMenu m (hidden refl refl) h))
play-IsMenu i false true true m hidden h = resumed-IsMenu i m h
