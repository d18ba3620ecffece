-- ===== src/Overlay/Menu/Acting.antt =====
-- What a row does keeps the stacks, and the seats: act, press_row, adjust and their parts.
use anyconsole.Base.{
  ℕ, ◌-◌, ◌<◌, ◌≡◌, refl, inl, inr, Bool, true, false, Option, none, some, arith, Option-cases,
  if_both, ◌==◌, ltb, get_elem?, length,
}
use anyconsole.Overlay.Players.{seat_of, login, logout}
use anyconsole.Overlay.Players.Drops.{IsSame}
use anyconsole.Overlay.Players.Seated.{IsSeated, IsSeated-IsSame}
use anyconsole.Overlay.Players.Login.{login-IsSeated}
use anyconsole.Overlay.Players.Logout.{logout-IsSeated}
use anyconsole.Overlay.Menu.{
  Screen, View, Call, World, Menu, call, depth_max, depth_of, is_open, top, set_top, set_depth,
  pop_guide, push_guide, push_dashboard, push, write_dashboard,
}
use anyconsole.Overlay.Menu.Act.{
  on_game, at_game, resume, owner_at, set_owner, launch, play_row, load_rewind, load_saved,
  save_to_slot, on_lobby, show_dashboard,
}
use anyconsole.Overlay.Menu.Stacks.{on_dashboard, on_guide, IsStack-fewer, Laid}
use anyconsole.Overlay.Menu.Laid.{set_top-Laid, pop_guide-Laid, push-Laid, write_dashboard-Laid}
use anyconsole.Overlay.Menu.Lobbies.{login-Laid, logout-Laid}

-- The seats are sound, and the stacks are as they should be.
pub record IsMenu (m : Menu) : Type 0 where
  pub seated : IsSeated m.lobby
  pub laid : Laid m

abbrev pub SameSeats : Menu → Menu → Type 0
SameSeats m n = IsSame m.lobby n.lobby

pub relaid : {m n : Menu} → IsMenu m → SameSeats m n → Laid n → IsMenu n
relaid h same laid = record { seated = IsSeated-IsSame same h.seated; laid = laid }

same : (m : Menu) → SameSeats m m
same m = record { same_member = refl; same_members = refl; same_player = refl; same_players = refl }

set_depth-SameSeats : (profile n : ℕ) (m : Menu) → SameSeats m (set_depth profile n m)
set_depth-SameSeats profile n m = record {
  same_member = refl;
  same_members = refl;
  same_player = refl;
  same_players = refl;
}

set_top-SameSeats : (v : View) (m : Menu) → SameSeats m (set_top v m)
unfolding set_top
set_top-SameSeats v m =
    if_both (SameSeats m) (is_open m.lobby.picker)
      (λ e. record {
        same_member = refl;
        same_members = refl;
        same_player = refl;
        same_players = refl;
      })
      λ e. if_both (SameSeats m) m.lobby.guide_shown (λ f. same m) (λ f. same m)

pop_guide-SameSeats : (m : Menu) → SameSeats m (pop_guide m)
unfolding pop_guide
pop_guide-SameSeats m =
    if_both (SameSeats m) (depth_of m == 0) (λ e. same m)
      λ e. set_depth-SameSeats m.guide_profile (depth_of m - 1) m

push-SameSeats : (screen : Screen) (shown : Option ℕ) (m : Menu) → SameSeats m (push screen shown m)
unfolding push push_guide push_dashboard
push-SameSeats screen shown m =
    if_both (SameSeats m) m.lobby.guide_shown
      (λ s.
        if_both (SameSeats m) (ltb (depth_of m) depth_max)
          (λ e. record {
            same_member = refl;
            same_members = refl;
            same_player = refl;
            same_players = refl;
          })
          (λ e. same m))
      λ u.
        if_both (SameSeats m) (ltb m.lobby.dashboard_depth depth_max)
          (λ e. record {
            same_member = refl;
            same_members = refl;
            same_player = refl;
            same_players = refl;
          })
          (λ e. same m)

pub set_top-IsMenu :
    (v : View) (m : Menu) → v.screen ≡ (top m).screen → IsMenu m → IsMenu (set_top v m)
set_top-IsMenu v m e h = relaid h (set_top-SameSeats v m) (set_top-Laid v m e h.laid)

pub pop_guide-IsMenu : (m : Menu) → 1 < depth_of m → IsMenu m → IsMenu (pop_guide m)
pop_guide-IsMenu m deep h =
    relaid h (pop_guide-SameSeats m) (pop_guide-Laid m (omega arith) (λ s. deep) h.laid)

pub push-IsMenu :
    (screen : Screen) (shown : Option ℕ) (m : Menu)
    → (m.lobby.guide_shown ≡ true → on_guide screen ≡ true)
    → (m.lobby.guide_shown ≡ false → on_dashboard screen ≡ true)
    → IsMenu m
    → IsMenu (push screen shown m)
push-IsMenu screen shown m over under h =
    relaid h (push-SameSeats screen shown m) (push-Laid screen shown m over under h.laid)

pub push_under :
    (screen : Screen) (shown : Option ℕ) (m : Menu)
    → m.lobby.guide_shown ≡ false
    → on_dashboard screen ≡ true
    → IsMenu m
    → IsMenu (push screen shown m)
push_under screen shown m hidden e h = push-IsMenu screen shown m (λ s. absurd (cc)) (λ u. e) h

pub push_over :
    (screen : Screen) (shown : Option ℕ) (m : Menu)
    → m.lobby.guide_shown ≡ true
    → on_guide screen ≡ true
    → IsMenu m
    → IsMenu (push screen shown m)
push_over screen shown m over e h = push-IsMenu screen shown m (λ s. e) (λ u. absurd (cc)) h

-- A call changes nothing of this.
pub called : (c : Call) {m : Menu} → IsMenu m → IsMenu (call c m)
called c h = record { seated = h.seated; laid = h.laid }

hidden-Laid :
    (m : Menu) (b : Bool)
    → Laid m
    → Laid (record m { lobby = record m.lobby { dashboard_open = b; guide_shown = false } })
hidden-Laid m b h = record {
  low = h.low;
  on_top = h.on_top;
  of_profile = h.of_profile;
  shows = λ e. absurd (cc);
  plays = λ e. absurd (cc);
  whole = h.whole;
}

pub resume-IsMenu : (i : ℕ) (m : Menu) → IsMenu m → IsMenu (resume i m)
unfolding resume
resume-IsMenu i m h =
    relaid h
      (record { same_member = refl; same_members = refl; same_player = refl; same_players = refl })
      (hidden-Laid (write_dashboard 0 (at_game i (m.dashboard 0)) m) false
        (write_dashboard-Laid 0 (at_game i (m.dashboard 0)) m refl h.laid))

pub on_game-IsMenu :
    (shown : Option ℕ) (go : ℕ → Menu → Menu) (m : Menu)
    → ((i : ℕ) → IsMenu (go i m))
    → IsMenu m
    → IsMenu (on_game shown go m)
on_game-IsMenu none go m kept h = h
on_game-IsMenu (some i) go m kept h = kept i

launch-IsMenu : (w : World) (i : ℕ) (m : Menu) → IsMenu m → IsMenu (launch w i m)
unfolding launch
launch-IsMenu w i m h =
    let started = called (Call.launch i) (called (Call.mark_used i) h) in
    if_both IsMenu (is_open (seat_of m.lobby (owner_at i m.lobby.games)))
      (λ e. if_both IsMenu (w.can_start i) (λ f. resume-IsMenu i _ started) (λ f. started))
      λ e. called (Call.owner_missing i) h

pub play_row-IsMenu :
    (w : World) (profile i : ℕ) (m : Menu) → IsMenu m → IsMenu (play_row w profile i m)
unfolding play_row
play_row-IsMenu w profile i m h =
    launch-IsMenu w i
      (record m { lobby = record m.lobby { games = set_owner i profile m.lobby.games } })
      (relaid h
        (record {
          same_member = refl;
          same_members = refl;
          same_player = refl;
          same_players = refl;
        })
        h.laid)

set_back-IsMenu : (n : ℕ) {m : Menu} → IsMenu m → IsMenu (record m { rewind_back = n })
set_back-IsMenu n h = record { seated = h.seated; laid = h.laid }

pub load_rewind-IsMenu : (w : World) (m : Menu) → IsMenu m → IsMenu (load_rewind w m)
unfolding load_rewind
load_rewind-IsMenu w m h =
    if_both IsMenu (m.rewind_back == 0) (λ e. h)
      λ e. elim (Option-cases (get_elem? w.rewind_slots (length w.rewind_slots - m.rewind_back))) [
        | inl f ↦ rw (f, load_rewind) h
        | inr (slot, f) ↦
            let left =
              set_back-IsMenu 0
                (called (Call.remove_states_after slot) (called (Call.load_slot slot) h)) in
            rw (f, load_rewind)
              (on_game-IsMenu m.active resume _ (λ i. resume-IsMenu i _ left) left)
      ]

pub load_saved-IsMenu : (w : World) (m : Menu) → IsMenu m → IsMenu (load_saved w m)
unfolding load_saved
load_saved-IsMenu w m h =
    let left = set_back-IsMenu 0 (called Call.load_unnumbered h) in
    if_both IsMenu (w.slot_filled m.guide_profile m.save_slot)
      (λ e. on_game-IsMenu m.active resume _ (λ i. resume-IsMenu i _ left) left) (λ e. h)

pub save_to_slot-IsMenu : (m : Menu) → IsMenu m → IsMenu (save_to_slot m)
unfolding save_to_slot
save_to_slot-IsMenu m h =
    let saved = called (Call.save_state m.guide_profile m.save_slot) h in
    on_game-IsMenu m.active resume _ (λ i. resume-IsMenu i _ saved) saved

pub show_dashboard-IsMenu : (m : Menu) → IsMenu m → IsMenu (show_dashboard m)
unfolding show_dashboard
show_dashboard-IsMenu m h =
    relaid h
      (record { same_member = refl; same_members = refl; same_player = refl; same_players = refl })
      (record {
        low = omega arith;
        on_top = IsStack-fewer 1 (omega (arith, h.laid.low)) h.laid.on_top;
        of_profile = h.laid.of_profile;
        shows = λ e. absurd (cc);
        plays = λ e. absurd (cc);
        whole = h.laid.whole;
      })

pub login-IsMenu :
    (profile : ℕ) (device : Option ℕ) (m : Menu)
    → IsMenu m
    → IsMenu (on_lobby (login profile device) m)
login-IsMenu profile device m h = record {
  seated = login-IsSeated profile device m.lobby h.seated;
  laid = login-Laid profile device m h.laid;
}

pub logout-IsMenu : (profile : ℕ) (m : Menu) → IsMenu m → IsMenu (on_lobby (logout profile) m)
logout-IsMenu profile m h = record {
  seated = logout-IsSeated profile m.lobby h.seated;
  laid = logout-Laid profile m h.laid;
}
