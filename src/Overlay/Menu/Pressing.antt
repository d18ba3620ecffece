-- ===== src/Overlay/Menu/Pressing.antt =====
-- Every button of every pad keeps the menu sound, and every screen that a request opens for a player:
-- open_guide, enter_guide, toggle_guide, press, hold, open_screen, play.
use anyconsole.Base.{
  ℕ, ◌<◌, ◌≡◌, refl, sym, ap, subst, inl, inr, Bool, true, false, not, ◌&&◌, ◌||◌, Option, none,
  some, arith, Bool-cases, if_both, ◌==◌,
}
use anyconsole.Overlay.Players.{Lobby, profile_of, profile_at, is_device}
use anyconsole.Overlay.Players.Search.{first_from-cases}
use anyconsole.Overlay.Players.Seated.{IsSeated}
use anyconsole.Overlay.Menu.{
  plane_of, Command, View, Call, World, Menu, call, depth_of, is_open, write_view, show_guide,
  interactive,
}
use anyconsole.Overlay.Menu.Rows.{asks, rewindable}
use anyconsole.Overlay.Menu.Act.{discard_staged}
use anyconsole.Overlay.Menu.Navigate.{
  is_command, await_capture, open_guide, first_guide, reset_guide, enter_guide, toggle_guide,
  is_guide, attract, is_prepared, cancel, press, hold,
}
use anyconsole.Overlay.Menu.Stacks.{on_guide, IsStack}
use anyconsole.Overlay.Menu.Acting.{IsMenu, relaid, called}
use anyconsole.Overlay.Menu.Navigating.{
  changed-IsMenu, hide-IsMenu, open_picker-IsMenu, navigate-IsMenu,
}

-- A guide that can show: its profile's stack has a view, and somebody plays.
pub record IsEntered (m : Menu) : Type 0 where
  pub entered : IsMenu m
  pub has_view : 0 < depth_of m
  pub has_player : 0 < m.lobby.player_count

first-IsStack : (views : ℕ → View) → IsStack is_guide on_guide 1 (write_view views 0 first_guide)
unfolding plane_of
first-IsStack views = record {
  high = omega arith;
  screens = λ i lt. only i (omega arith);
  bottom = λ lt. refl;
}
  where
    only : (i : ℕ) → i ≡ 0 → on_guide (write_view views 0 first_guide i).screen ≡ true
    only i e = subst (λ k. on_guide (write_view views 0 first_guide k).screen ≡ true) (sym e) refl

module _ (profile : ℕ) (m : Menu) (players : 0 < m.lobby.player_count) (h : IsMenu m) where
  reset_guide-IsEntered :
      (reset : Bool) → IsEntered (reset_guide profile reset (record m { guide_profile = profile }))
  unfolding reset_guide
  reset_guide-IsEntered reset =
      let own : (profile == profile) ≡ true = ground arith in
      if_both IsEntered (reset || m.lobby.guide_depths profile == 0)
        (λ e. record {
          entered =
              relaid h
                (record {
                  same_member = refl;
                  same_members = refl;
                  same_player = refl;
                  same_players = refl;
                })
                (record {
                  low = h.laid.low;
                  on_top = h.laid.on_top;
                  of_profile = λ p. elim (Bool-cases (profile == p)) [
                    | inl same ↦ rw same (first-IsStack (m.guides p))
                    | inr other ↦ rw other (h.laid.of_profile p)
                  ];
                  shows = λ s. rw own (omega arith);
                  plays = λ s. players;
                  whole = h.laid.whole;
                });
          has_view = rw own (omega arith);
          has_player = players;
        })
        λ e.
          let low : 0 < m.lobby.guide_depths profile = ground arith in
          record {
            entered =
                relaid h
                  (record {
                    same_member = refl;
                    same_members = refl;
                    same_player = refl;
                    same_players = refl;
                  })
                  (record {
                    low = h.laid.low;
                    on_top = h.laid.on_top;
                    of_profile = h.laid.of_profile;
                    shows = λ s. low;
                    plays = λ s. players;
                    whole = h.laid.whole;
                  });
            has_view = low;
            has_player = players;
          }

show-IsMenu : (m : Menu) → IsEntered m → IsMenu (show_guide m)
show-IsMenu m h =
    relaid h.entered
      (record { same_member = refl; same_members = refl; same_player = refl; same_players = refl })
      (record {
        low = h.entered.laid.low;
        on_top = h.entered.laid.on_top;
        of_profile = h.entered.laid.of_profile;
        shows = λ e. h.has_view;
        plays = λ e. h.has_player;
        whole = h.entered.laid.whole;
      })

fresh-IsEntered :
    (m : Menu) → IsEntered m → IsEntered (discard_staged (record m { rewind_back = 0 }))
unfolding discard_staged
fresh-IsEntered m h = record {
  entered = record { seated = h.entered.seated; laid = h.entered.laid };
  has_view = h.has_view;
  has_player = h.has_player;
}

called-IsEntered : (c : Call) (m : Menu) → IsEntered m → IsEntered (call c m)
called-IsEntered c m h = record {
  entered = called c h.entered;
  has_view = h.has_view;
  has_player = h.has_player;
}

awaits : (m : Menu) → IsMenu m → IsMenu (await_capture m)
awaits m h = record { seated = h.seated; laid = h.laid }

open_guide-IsMenu : (w : World) (m : Menu) → IsEntered m → IsMenu (open_guide w m)
unfolding open_guide
open_guide-IsMenu w m h =
    let k = fresh-IsEntered m h in
    let c = called-IsEntered Call.start_capture _ k in
    if_both IsMenu (not (rewindable w m) || asks m.active w.restarting) (λ e. show-IsMenu _ k)
      λ e.
        if_both IsMenu w.has_session (λ f. awaits _ k.entered)
          λ f. if_both IsMenu w.can_capture (λ g. awaits _ c.entered) (λ g. show-IsMenu _ c)

focused-IsEntered :
    (device : Option ℕ) (m : Menu)
    → IsEntered m
    → IsEntered (record m { lobby = record m.lobby { focus = device; input_device = device } })
focused-IsEntered device m h = record {
  entered =
      relaid h.entered
        (record {
          same_member = refl;
          same_members = refl;
          same_player = refl;
          same_players = refl;
        })
        h.entered.laid;
  has_view = h.has_view;
  has_player = h.has_player;
}

pub enter_guide-IsMenu :
    (w : World) (profile : ℕ) (device : Option ℕ) (reset : Bool) (m : Menu)
    → 0 < m.lobby.player_count
    → IsMenu m
    → IsMenu (enter_guide w profile device reset m)
unfolding enter_guide
enter_guide-IsMenu w profile device reset m players h =
    let k = focused-IsEntered device _ (reset_guide-IsEntered profile m players h reset) in
    if_both IsMenu (not m.lobby.guide_shown) (λ e. open_guide-IsMenu w _ k) (λ e. k.entered)

seated_player :
    (s : Lobby) (device : ℕ) → IsSeated s → (profile_of s device == 0) ≡ false → 0 < s.player_count
unfolding profile_of
seated_player s device h e =
    elim (first_from-cases (λ i. (s.member i).device == device) s.member_count 0) [
      | inl (k, at, f) ↦ (let (j, under, g) = h.seated k (omega (arith, f.high)) in omega arith)
      | inr (at, missing) ↦
          absurd (let z : profile_of s device ≡ 0 = ap (profile_at s) at in ground arith)
    ]

pub toggle_guide-IsMenu :
    (w : World) (device : ℕ) (m : Menu)
    → 0 < m.lobby.player_count
    → IsMenu m
    → IsMenu (toggle_guide w device m)
unfolding toggle_guide
toggle_guide-IsMenu w device m players h =
    if_both IsMenu (m.lobby.guide_shown && is_device m.lobby.focus device) (λ e. hide-IsMenu m h)
      λ e. enter_guide-IsMenu w (profile_of m.lobby device) (some device) false m players h

cancel-IsMenu : (active : Option ℕ) (m : Menu) → IsMenu m → IsMenu (cancel active m)
cancel-IsMenu none m h = h
cancel-IsMenu (some i) m h = called (Call.cancel_launch i) h

-- From a sound menu, whatever button of whatever pad is pressed, on whatever screen, whatever the games,
-- the devices and the files are like, the menu that follows is sound: the dashboard has its home screen
-- at the bottom, and a guide that has views its first screen; no stack is deeper than 4, and every view
-- is on the stack of its plane; the guide shows only while somebody plays and its stack has a view; no
-- depth has gone below 0; there are no more players than pads, no profile plays twice, and every device
-- plays for a profile with a seat.
pub press-IsMenu :
    (w : World) (device : ℕ) (pressed : Command) (m : Menu)
    → IsMenu m
    → IsMenu (press w device pressed m)
unfolding press
press-IsMenu w device pressed m h =
    if_both IsMenu (attract m) (λ e. open_picker-IsMenu device m h)
      λ e.
        if_both IsMenu (is_open m.lobby.picker)
          (λ f.
            if_both IsMenu (is_device m.lobby.picker device)
              (λ g. navigate-IsMenu w device pressed m h) (λ g. h))
          λ f.
            if_both IsMenu (profile_of m.lobby device == 0)
              (λ g.
                if_both IsMenu
                  (is_command pressed Command.guide_button || not (w.has_guide_button device))
                  (λ k. open_picker-IsMenu device m h) (λ k. h))
              λ g.
                if_both IsMenu (is_command pressed Command.guide_button)
                  (λ k.
                    changed-IsMenu
                      (toggle_guide-IsMenu w device m (seated_player m.lobby device h.seated g) h))
                  λ k.
                    if_both IsMenu
                      (is_command pressed Command.back && asks m.active (is_prepared w))
                      (λ n. cancel-IsMenu m.active m h)
                      λ n.
                        if_both IsMenu
                          (interactive m
                            && (not m.lobby.guide_shown || is_device m.lobby.focus device))
                          (λ q. navigate-IsMenu w device pressed m h) (λ q. h)

-- The same of a pad's button that is held or let go, which may start or stop the repeats.
pub hold-IsMenu :
    (w : World) (device : ℕ) (pressed : Command) (down : Bool) (m : Menu)
    → IsMenu m
    → IsMenu (hold w device pressed down m)
unfolding hold
hold-IsMenu w device pressed down m h =
    let k = if_both IsMenu down (λ e. press-IsMenu w device pressed m h) (λ e. h) in
    if_both IsMenu _ (λ e. k) (λ e. record { seated = k.seated; laid = k.laid })
