-- ===== src/Overlay/Menu/Navigating.antt =====
-- The buttons that move in a view keep the menu sound: set_top, switch_tab, go_back, navigate.
use anyconsole.Base.{
  ℕ, ◌-◌, ◌≡◌, refl, sym, ◌∙◌, subst, inl, inr, Bool, true, false, not, ◌&&◌, ◌||◌, Option, none,
  some, List, arith, Option-cases, if_both, ◌==◌, ltb, length, get_elem?,
}
use anyconsole.Overlay.Players.{Lobby, Member, profile_of, profile_at, first_from, is_device}
use anyconsole.Overlay.Players
use anyconsole.Overlay.Menu.{
  Screen, Command, Tab, Row, View, World, Menu, depth_of, is_open, top, set_top, hide_guide,
  set_changed, in_game,
}
use anyconsole.Overlay.Menu.Rows.{tab_of, build, screen_rows}
use anyconsole.Overlay.Menu.Act.{adjust}
use anyconsole.Overlay.Menu.Navigate.{
  is_command, is_direction, is_move, open_picker, next_tab, tab_view, to_tab, switch_tab, moved,
  select, move, go_back, on_row, press_on, use_row, navigate_rows, is_guide, by_pad, navigate,
}
use anyconsole.Overlay.Menu.Stacks.{IsStack-fewer}
use anyconsole.Overlay.Menu.Laid.{set_depth-Laid, set_top-top}
use anyconsole.Overlay.Menu.Places.{place, suits, AllFit, screen_rows-AllFit}
use anyconsole.Overlay.Menu.Tops.{and_left}
use anyconsole.Overlay.Menu.Acting.{IsMenu, relaid, set_top-IsMenu}
use anyconsole.Overlay.Menu.Running.{press_row-IsMenu, adjust-IsMenu}

pub changed-IsMenu : {m : Menu} → IsMenu m → IsMenu (set_changed m)
changed-IsMenu h =
    relaid h
      (record { same_member = refl; same_members = refl; same_player = refl; same_players = refl })
      h.laid

by_pad-IsMenu : (device : ℕ) {m : Menu} → IsMenu m → IsMenu (by_pad device m)
by_pad-IsMenu device h =
    relaid h
      (record { same_member = refl; same_members = refl; same_player = refl; same_players = refl })
      h.laid

pub hide-IsMenu : (m : Menu) → IsMenu m → IsMenu (hide_guide m)
hide-IsMenu m h =
    relaid h
      (record { same_member = refl; same_members = refl; same_player = refl; same_players = refl })
      (record {
        low = h.laid.low;
        on_top = h.laid.on_top;
        of_profile = h.laid.of_profile;
        shows = λ e. absurd (cc);
        plays = λ e. absurd (cc);
        whole = h.laid.whole;
      })

pub open_picker-IsMenu : (device : ℕ) (m : Menu) → IsMenu m → IsMenu (open_picker device m)
unfolding Players.open_picker
open_picker-IsMenu device m h =
    relaid h
      (record { same_member = refl; same_members = refl; same_player = refl; same_players = refl })
      h.laid

-- BACK and the guide button leave the picker, a view, the guide, or a screen of the dashboard.
go_back-IsMenu : (m : Menu) → IsMenu m → IsMenu (go_back m)
unfolding go_back
go_back-IsMenu m h =
    if_both IsMenu (is_open m.lobby.picker)
      (λ e.
        relaid h
          (record {
            same_member = refl;
            same_members = refl;
            same_player = refl;
            same_players = refl;
          })
          h.laid)
      λ e.
        if_both IsMenu (m.lobby.guide_shown && ltb 1 (depth_of m))
          (λ f.
            relaid h
              (record {
                same_member = refl;
                same_members = refl;
                same_player = refl;
                same_players = refl;
              })
              (set_depth-Laid m.guide_profile (depth_of m - 1) m (omega arith) (λ g s. ground arith)
                h.laid))
          λ f.
            if_both IsMenu m.lobby.guide_shown (λ g. hide-IsMenu m h)
              λ g.
                if_both IsMenu (ltb 1 m.lobby.dashboard_depth)
                  (λ k.
                    relaid h
                      (record {
                        same_member = refl;
                        same_members = refl;
                        same_player = refl;
                        same_players = refl;
                      })
                      (record {
                        low = ground arith;
                        on_top = IsStack-fewer _ (omega arith) h.laid.on_top;
                        of_profile = h.laid.of_profile;
                        shows = h.laid.shows;
                        plays = h.laid.plays;
                        whole = h.laid.whole;
                      }))
                  (λ k. h)

switch_tab-IsMenu :
    (forward : Bool) (m : Menu)
    → is_guide (top m).screen ≡ true
    → IsMenu m
    → IsMenu (switch_tab (top m) forward m)
unfolding switch_tab
switch_tab-IsMenu forward m e h = go (next_tab (in_game m) forward (tab_of m (top m)))
  where
    is_guide→guide : (s : Screen) → is_guide s ≡ true → Screen.guide ≡ s
    is_guide→guide Screen.guide e = refl
    is_guide→guide s e = absurd (cc)

    go : (tab : Option Tab) → IsMenu (to_tab (top m) tab m)
    go none = h
    go (some tab) =
        changed-IsMenu (set_top-IsMenu (tab_view (top m) tab) m (is_guide→guide (top m).screen e) h)

select-screen : (r : Option Row) (v : View) → (select r v).screen ≡ v.screen
select-screen none v = refl
select-screen (some r) v = refl

move-IsMenu :
    (rows : List Row) (v : View) (pressed : Command) (m : Menu)
    → v.screen ≡ (top m).screen
    → IsMenu m
    → IsMenu (move rows v pressed m)
unfolding move
move-IsMenu rows v pressed m e h =
    let selected = moved pressed (length rows) v.selected in
    let w = record v { selected = selected } in
    let written =
      set_top-IsMenu (select (get_elem? rows selected) w) m
        (select-screen (get_elem? rows selected) w ∙ e) h in
    if_both IsMenu (not (selected == v.selected)) (λ f. changed-IsMenu written) (λ f. written)

-- The row that is selected fits the screen on top.
abbrev FitsTop : Option Row → Menu → Type 0
FitsTop none m = Unit {0}
FitsTop (some r) m = suits (place r.action) (top m).screen ≡ true

press_on-IsMenu :
    (w : World) (device : ℕ) (pressed : Command) (row : Option Row) (m : Menu)
    → FitsTop row m
    → IsMenu m
    → IsMenu (press_on w device pressed row m)
press_on-IsMenu w device pressed none m fits h = h
press_on-IsMenu w device pressed (some r) m fits h =
    press_row-IsMenu w r pressed (profile_of m.lobby device) m fits h

adjust_on-IsMenu :
    (w : World) (row : Option Row) (forward : Bool) (m : Menu)
    → IsMenu m
    → IsMenu (on_row row (λ r. adjust w r.action r.arg forward) m)
adjust_on-IsMenu w none forward m h = h
adjust_on-IsMenu w (some r) forward m h = adjust-IsMenu w r.action r.arg forward m h

use_row-IsMenu :
    (w : World) (device : ℕ) (row : Option Row) (pressed : Command) (m : Menu)
    → FitsTop row m
    → IsMenu m
    → IsMenu (use_row w device row pressed m)
unfolding use_row
use_row-IsMenu w device row Command.left m fits h = adjust_on-IsMenu w row false m h
use_row-IsMenu w device row Command.right m fits h = adjust_on-IsMenu w row true m h
use_row-IsMenu w device row Command.confirm m fits h =
    press_on-IsMenu w device Command.confirm row m fits h
use_row-IsMenu w device row Command.x_button m fits h =
    press_on-IsMenu w device Command.x_button row m fits h
use_row-IsMenu w device row Command.y_button m fits h =
    press_on-IsMenu w device Command.y_button row m fits h
use_row-IsMenu w device row Command.back m fits h = go_back-IsMenu m h
use_row-IsMenu w device row Command.guide_button m fits h = go_back-IsMenu m h
use_row-IsMenu w device row pressed m fits h = h

module _ (w : World) (device : ℕ) where
  row-FitsTop :
      (rows : List Row) (screen : Screen) (i : ℕ) (m : Menu)
      → AllFit screen rows
      → screen ≡ (top m).screen
      → FitsTop (get_elem? rows i) m
  row-FitsTop rows screen i m fits e = elim (Option-cases (get_elem? rows i)) [
    | inl f ↦ subst (λ r. FitsTop r m) (sym f) tt
    | inr (r, f) ↦
        subst (λ r. FitsTop r m) (sym f)
          (subst (λ s. suits (place r.action) s ≡ true) e (fits.each i f))
  ]

  navigate_rows-IsMenu :
      (pressed : Command) (rows : List Row) (v : View) (m : Menu)
      → AllFit v.screen rows
      → v.screen ≡ (top m).screen
      → IsMenu m
      → IsMenu (navigate_rows w device pressed (rows, v) m)
  navigate_rows-IsMenu pressed rows v m fits e h =
      let written = set_top-IsMenu v m e h in
      let still : v.screen ≡ (top (set_top v m)).screen = e ∙ sym (set_top-top v m e) in
      if_both IsMenu (is_move pressed) (λ f. move-IsMenu rows v pressed (set_top v m) still written)
        λ f. changed-IsMenu (
          use_row-IsMenu w device (get_elem? rows v.selected) pressed (set_top v m)
            (row-FitsTop rows v.screen v.selected (set_top v m) fits still) written)

  pub navigate-IsMenu :
      (pressed : Command) (m : Menu) → IsMenu m → IsMenu (navigate w device pressed m)
  unfolding navigate build
  navigate-IsMenu pressed m h =
      let n = by_pad device m in
      let k : IsMenu n = by_pad-IsMenu device h in
      if_both IsMenu (w.script_takes pressed && is_direction pressed) (λ e. changed-IsMenu k)
        λ e.
          if_both IsMenu
            (is_guide (top n).screen
              && (is_command pressed Command.page_up || is_command pressed Command.page_down))
            (λ f. switch_tab-IsMenu (is_command pressed Command.page_down) n (and_left _ _ f) k)
            λ f.
              navigate_rows-IsMenu pressed (screen_rows w n (top n) (top n).screen)
                (build w n (top n)).1 n (screen_rows-AllFit w n (top n) (top n).screen) refl k
