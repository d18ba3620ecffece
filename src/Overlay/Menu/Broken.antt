-- ===== src/Overlay/Menu/Broken.antt =====
-- What leaves a guide on the screen with no view in it, so that the next look at its top view reads
-- before the array: a login after a request has opened the guide with nobody playing, and a game whose
-- program cannot be started while the guide shows.
use anyconsole.Base.{
  ℕ, zero, suc, ◌≡◌, refl, ◌∙◌, ap, inl, inr, Bool, true, false, not, ◌&&◌, ◌||◌, Option, none,
  some, arith, Bool-cases, Option-cases, if_true, if_both, ◌==◌, ltb,
}
use anyconsole.Base.Loop.{for_below_inv}
use anyconsole.Overlay.Players.{
  Member, Lobby, Told, pads_max, profiles_max, members_max, tell, first_from, seat_of, is_device,
  drop_down, seat_devices, seat_for, open_first, take_seat, join, stay, same_device, close_picker,
  log_in, login,
}
use anyconsole.Overlay.Players.Seated.{IsSeated, IsSeated-IsSame}
use anyconsole.Overlay.Menu.{Screen, plane_of, Tab, World, Menu, in_game}
use anyconsole.Overlay.Menu.Rows.{asks, rewindable}
use anyconsole.Overlay.Menu.Act.{discard_staged}
use anyconsole.Overlay.Menu.Navigate.{open_guide, reset_guide, enter_guide}
use anyconsole.Overlay.Menu.Requests.{device_for, open_screen, is_active, ended, play}
use anyconsole.Overlay.Menu.Acting.{IsMenu, SameSeats}

-- The guide shows, and no guide has a view.
pub record IsLost (s : Lobby) : Type 0 where
  pub shown : s.guide_shown ≡ true
  pub empty : s.guide_depths ≡ λ _. 0

tell-IsLost : (t : Told) (s : Lobby) → IsLost s → IsLost (tell t s)
tell-IsLost t s h = record { shown = h.shown; empty = h.empty }

seat_devices-IsLost : (s : Lobby) → IsLost s → IsLost (seat_devices s)
unfolding seat_devices
seat_devices-IsLost s h =
    let k =
      for_below_inv (λ n t. IsLost t) _ (λ i t k. tell-IsLost _ t k) s.member_count
        (tell (Told.pads s.player_count) (tell Told.session_saved s))
        (record { shown = h.shown; empty = h.empty }) in
    record { shown = k.shown; empty = k.empty }

take_seat-IsLost : (profile : ℕ) (s : Lobby) → IsLost s → IsLost (take_seat profile s)
unfolding take_seat
take_seat-IsLost profile s h = elim (Option-cases (seat_of s profile)) [
  | inl e ↦ rw (e, take_seat) (record { shown = h.shown; empty = h.empty })
  | inr (seat, e) ↦ rw (e, take_seat) h
]

take_seat-no_members :
    (profile : ℕ) (s : Lobby) → s.member_count ≡ 0 → (take_seat profile s).member_count ≡ 0
unfolding take_seat
take_seat-no_members profile s z = elim (Option-cases (seat_of s profile)) [
  | inl e ↦ rw (e, take_seat) z
  | inr (seat, e) ↦ rw (e, take_seat) z
]

join-IsLost :
    (profile : ℕ) (device : Option ℕ) (s : Lobby) → IsLost s → IsLost (join profile device s)
unfolding join
join-IsLost profile none s h = h
join-IsLost profile (some device) s h =
    if_both IsLost (ltb s.member_count members_max)
      (λ e. record { shown = h.shown; empty = h.empty }) (λ e. h)

close_picker-IsLost : (device : Option ℕ) (s : Lobby) → IsLost s → IsLost (close_picker device s)
close_picker-IsLost device s h =
    if_both IsLost (same_device device s.picker) (λ e. record { shown = h.shown; empty = h.empty })
      (λ e. h)

open_first-IsLost : (s : Lobby) → s.player_count ≡ 0 → s.guide_shown ≡ true → IsLost (open_first s)
unfolding open_first
open_first-IsLost s z shown =
    if_both IsLost (s.player_count == 0) (λ e. record { shown = shown; empty = refl })
      (λ e. absurd (ground arith))

open_first-members : (s : Lobby) → (open_first s).member_count ≡ s.member_count
unfolding open_first
open_first-members s =
    if_both (λ (t : Lobby). t.member_count ≡ s.member_count) (s.player_count == 0) (λ e. refl)
      (λ e. refl)

drop_none :
    (test : Member → Bool) (n : ℕ) (s : Lobby) → n ≡ 0 → IsLost s → IsLost (drop_down test stay n s)
unfolding drop_down
drop_none test zero s z h = h
drop_none test (suc n) s z h = absurd (omega arith)

log_in-IsLost :
    (profile : ℕ) (device : Option ℕ) (s : Lobby)
    → s.player_count ≡ 0
    → s.member_count ≡ 0
    → s.guide_shown ≡ true
    → IsLost (log_in profile device s)
unfolding log_in
log_in-IsLost profile device s z none_in shown = seat_devices-IsLost _ (
    close_picker-IsLost device _ (
      join-IsLost profile device _ (
        drop_none (λ m. is_device device m.device) _ _
          (take_seat-no_members profile (open_first s) (open_first-members s ∙ none_in))
          (take_seat-IsLost profile (open_first s) (open_first-IsLost s z shown)))))

nobody-seat_of : (profile : ℕ) (s : Lobby) → s.player_count ≡ 0 → seat_of s profile ≡ none
unfolding seat_of first_from
nobody-seat_of profile s z = ap (λ n. first_from (λ i. s.player i == profile) n 0) z

seat_for-first : (profile : ℕ) (s : Lobby) → s.player_count ≡ 0 → seat_for s profile ≡ some 0
unfolding seat_for
seat_for-first profile s z =
    let room : ltb s.player_count pads_max ≡ true = ground arith in
    rw (nobody-seat_of profile s z, seat_for) (if_true _ _ room ∙ ap some z)

members-none : (s : Lobby) → IsSeated s → s.player_count ≡ 0 → s.member_count ≡ 0
members-none s h z = elim (Bool-cases (s.member_count == 0)) [
  | inl e ↦ ground arith
  | inr e ↦ absurd (let (k, lt, f) = h.seated 0 (ground arith) in omega arith)
]

-- With nobody playing and the guide on the screen, whoever logs in leaves the guide on the screen and no
-- guide with a view.
pub login-IsLost :
    (profile : ℕ) (device : Option ℕ) (s : Lobby)
    → (profile == 0 || ltb profiles_max profile) ≡ false
    → IsSeated s
    → s.player_count ≡ 0
    → s.guide_shown ≡ true
    → IsLost (login profile device s)
unfolding login
login-IsLost profile device s right h z shown =
    rw (right, seat_for-first profile s z, login)
      (log_in-IsLost profile device s z (members-none s h z) shown)

open_guide-SameSeats : (w : World) (m n : Menu) → SameSeats m n → SameSeats m (open_guide w n)
unfolding open_guide discard_staged
open_guide-SameSeats w m n s =
    let a = s.same_member in
    let b = s.same_members in
    let c = s.same_player in
    let d = s.same_players in
    if_both (SameSeats m) (not (rewindable w n) || asks n.active w.restarting)
      (λ e. record { same_member = a; same_members = b; same_player = c; same_players = d })
      λ e.
        if_both (SameSeats m) w.has_session
          (λ e. record { same_member = a; same_members = b; same_player = c; same_players = d })
          λ e.
            if_both (SameSeats m) w.can_capture
              (λ e. record { same_member = a; same_members = b; same_player = c; same_players = d })
              (λ e. record { same_member = a; same_members = b; same_player = c; same_players = d })

module _ (w : World) (profile : ℕ) (device : Option ℕ) (m : Menu) where
  enter_guide-SameSeats : SameSeats m (enter_guide w profile device true m)
  unfolding enter_guide reset_guide
  enter_guide-SameSeats =
      if_both (SameSeats m) (not m.lobby.guide_shown)
        (λ e. open_guide-SameSeats w m _ (record {
          same_member = refl;
          same_members = refl;
          same_player = refl;
          same_players = refl;
        }))
        (λ e. record {
          same_member = refl;
          same_members = refl;
          same_player = refl;
          same_players = refl;
        })

  -- Where no game is on the screen, the guide shows at once.
  enter_guide-shown :
      m.lobby.guide_shown ≡ false
      → in_game m ≡ false
      → (enter_guide w profile device true m).lobby.guide_shown ≡ true
  unfolding enter_guide reset_guide open_guide rewindable discard_staged
  enter_guide-shown hidden away =
      ap (λ (n : Menu). n.lobby.guide_shown) (if_true _ _ (ap not hidden))
      ∙ ap (λ (n : Menu). n.lobby.guide_shown)
          (if_true _ _
            (ap (λ b. not (b && asks m.active w.rewinds) || asks m.active w.restarting) away))

-- From a sound menu with nobody playing and no game on the screen, a request that opens the guide, and
-- then whoever logs in, leave the guide on the screen and no guide with a view.
pub request_login-IsLost :
    (w : World) (tab : Tab) (p : ℕ) (d : Option ℕ) (profile : ℕ) (device : Option ℕ) (m : Menu)
    → IsMenu m
    → m.lobby.player_count ≡ 0
    → in_game m ≡ false
    → (profile == 0 || ltb profiles_max profile) ≡ false
    → IsLost (login profile device (open_screen w Screen.guide none tab p d m).lobby)
unfolding open_screen plane_of
request_login-IsLost w tab p d profile device m h z away right =
    let n = record m { lobby = record m.lobby { picker = none } } in
    let seats = enter_guide-SameSeats w p (device_for p d n) n in
    let hidden : m.lobby.guide_shown ≡ false = elim (Bool-cases m.lobby.guide_shown) [
      | inl shown ↦ absurd (omega (arith, h.laid.plays shown))
      | inr hidden ↦ hidden
    ] in
    login-IsLost profile device (enter_guide w p (device_for p d n) true n).lobby right
      (IsSeated-IsSame seats (
        IsSeated-IsSame
          (record {
            same_member = refl;
            same_members = refl;
            same_player = refl;
            same_players = refl;
          })
          h.seated))
      (seats.same_players ∙ z) (enter_guide-shown w p (device_for p d n) n hidden away)

-- A game that was to start afresh, whose program cannot be started, while the guide shows.
pub play-IsLost :
    (i : ℕ) (m : Menu) → m.lobby.guide_shown ≡ true → IsLost (play i false true false m).lobby
unfolding play ended
play-IsLost i m shown =
    if_both (λ (n : Menu). IsLost n.lobby) (is_active m.active i)
      (λ e. record { shown = shown; empty = refl }) (λ e. record { shown = shown; empty = refl })
