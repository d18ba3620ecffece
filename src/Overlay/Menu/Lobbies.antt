-- ===== src/Overlay/Menu/Lobbies.antt =====
-- What logging in and out does to the stacks of the menu.
use anyconsole.Base.{
  ℕ, zero, suc, ◌+◌, ◌≤◌, ◌≡◌, refl, ◌∙◌, inl, inr, ◌⊎◌, Bool, true, ◌||◌, ◌&&◌, Option, none, some,
  List, [], ◌∷◌, ◌==◌, ==_iff, ltb, if◌then◌else◌, arith, Bool-cases, Option-cases, if_both,
}
use anyconsole.Base.Loop.{for_below_inv}
use anyconsole.Overlay.Players.{
  Member, Owned, Lobby, Told, members_max, profiles_max, tell, seat_of, is_device, drop_member,
  drop_down, seat_devices, seat_for, open_first, take_seat, join, stay, same_device, close_picker,
  log_in, login, close_owned, leave_padd, leave_seat, logout,
}
use anyconsole.Overlay.Menu.{Menu}
use anyconsole.Overlay.Menu.Act.{on_lobby}
use anyconsole.Overlay.Menu.Stacks.{IsStack-fewer, Laid}

-- The depths are as they were, and a guide that shows did so before, with no more players then.
pub record IsKept (s t : Lobby) : Type 0 where
  pub hides : t.guide_shown ≡ true → s.guide_shown ≡ true
  pub same_dashboard : t.dashboard_depth ≡ s.dashboard_depth
  pub same_guides : t.guide_depths ≡ s.guide_depths
  pub plays : t.guide_shown ≡ true → s.player_count ≤ t.player_count

IsKept-refl : (s : Lobby) → IsKept s s
IsKept-refl s = record {
  hides = λ e. e;
  same_dashboard = refl;
  same_guides = refl;
  plays = λ e. omega arith;
}

IsKept-trans : {s t u : Lobby} → IsKept s t → IsKept t u → IsKept s u
IsKept-trans a b = record {
  hides = λ e. a.hides (b.hides e);
  same_dashboard = b.same_dashboard ∙ a.same_dashboard;
  same_guides = b.same_guides ∙ a.same_guides;
  plays = λ e. omega (arith, b.plays e, a.plays (b.hides e));
}

tell-IsKept : (t : Told) (s : Lobby) → IsKept s (tell t s)
tell-IsKept t s = record {
  hides = λ e. e;
  same_dashboard = refl;
  same_guides = refl;
  plays = λ e. omega arith;
}

drop_member-IsKept : (i : ℕ) (s : Lobby) → IsKept s (drop_member i s)
unfolding drop_member
drop_member-IsKept i s = record {
  hides = λ e. elim (Bool-cases (is_device s.focus (s.member i).device)) [
    | inl lost ↦ absurd (ground arith)
    | inr other ↦ ground arith
  ];
  same_dashboard = refl;
  same_guides = refl;
  plays = λ e. omega arith;
}

module _ (test : Member → Bool) (leave : Member → Lobby → Lobby)
    (kept : (m : Member) (s : Lobby) → IsKept s (leave m s)) where
  drop_down-IsKept : (n : ℕ) (s : Lobby) → IsKept s (drop_down test leave n s)
  unfolding drop_down
  drop_down-IsKept zero s = IsKept-refl s
  drop_down-IsKept (suc n) s =
      let first : IsKept s (if test (s.member n) then drop_member n (leave (s.member n) s) else s) =
        if_both (IsKept s) (test (s.member n))
          (λ e. IsKept-trans (kept (s.member n) s) (drop_member-IsKept n (leave (s.member n) s)))
          (λ e. IsKept-refl s) in
      IsKept-trans first (drop_down-IsKept n _)

seat_devices-IsKept : (s : Lobby) → IsKept s (seat_devices s)
unfolding seat_devices
seat_devices-IsKept s =
    let k =
      for_below_inv (λ n t. IsKept s t) _ (λ i t h. IsKept-trans h (tell-IsKept _ t)) s.member_count
        (tell (Told.pads s.player_count) (tell Told.session_saved s))
        (record {
          hides = λ e. e;
          same_dashboard = refl;
          same_guides = refl;
          plays = λ e. omega arith;
        }) in
    record {
      hides = k.hides;
      same_dashboard = k.same_dashboard;
      same_guides = k.same_guides;
      plays = k.plays;
    }

take_seat-IsKept : (profile : ℕ) (s : Lobby) → IsKept s (take_seat profile s)
unfolding take_seat
take_seat-IsKept profile s = elim (Option-cases (seat_of s profile)) [
  | inl e ↦
      rw (e, take_seat)
        (record {
          hides = λ e. e;
          same_dashboard = refl;
          same_guides = refl;
          plays = λ e. omega arith;
        })
  | inr (seat, e) ↦ rw (e, take_seat) (IsKept-refl s)
]

join-IsKept : (profile : ℕ) (device : Option ℕ) (s : Lobby) → IsKept s (join profile device s)
unfolding join
join-IsKept profile none s = IsKept-refl s
join-IsKept profile (some device) s =
    if_both (IsKept s) (ltb s.member_count members_max)
      (λ e. record {
        hides = λ e. e;
        same_dashboard = refl;
        same_guides = refl;
        plays = λ e. omega arith;
      })
      (λ e. IsKept-refl s)

close_picker-IsKept : (device : Option ℕ) (s : Lobby) → IsKept s (close_picker device s)
close_picker-IsKept device s =
    if_both (IsKept s) (same_device device s.picker)
      (λ e. record {
        hides = λ e. e;
        same_dashboard = refl;
        same_guides = refl;
        plays = λ e. omega arith;
      })
      (λ e. IsKept-refl s)

close_owned-IsKept :
    (profile : ℕ) (gs : List Owned) (i : ℕ) (s : Lobby) → IsKept s (close_owned profile gs i s)
unfolding close_owned
close_owned-IsKept profile [] i s = IsKept-refl s
close_owned-IsKept profile (g ∷ gs) i s =
    IsKept-trans
      (if_both (IsKept s) (g.owner == profile && g.running) (λ e. tell-IsKept (Told.close_game i) s)
        (λ e. IsKept-refl s))
      (close_owned-IsKept profile gs (i + 1) _)

leave_seat-IsKept : (seat : ℕ) (s : Lobby) → IsKept s (leave_seat seat s)
unfolding leave_seat
leave_seat-IsKept seat s = record {
  hides = λ e. absurd (cc);
  same_dashboard = refl;
  same_guides = refl;
  plays = λ e. absurd (cc);
}

logout-IsKept : (profile : ℕ) (s : Lobby) → IsKept s (logout profile s)
unfolding logout
logout-IsKept profile s = elim (Option-cases (seat_of s profile)) [
  | inl e ↦ rw (e, logout) (IsKept-refl s)
  | inr (seat, e) ↦
      let closed = close_owned profile s.games 0 s in
      let left = drop_down (λ m. m.profile == profile) leave_padd closed.member_count closed in
      rw (e, logout)
        (IsKept-trans (close_owned-IsKept profile s.games 0 s) (
          IsKept-trans
            (drop_down-IsKept (λ m. m.profile == profile) leave_padd
              (λ m t. IsKept-trans (tell-IsKept _ t) (tell-IsKept _ (tell _ t))) closed.member_count
              closed)
            (IsKept-trans (leave_seat-IsKept seat left)
              (seat_devices-IsKept (leave_seat seat left)))))
]

-- With players in, a login keeps the depths; without, it resets them.
pub record IsLowered (s t : Lobby) : Type 0 where
  pub hides : t.guide_shown ≡ true → s.guide_shown ≡ true
  pub on_dashboard : (t.dashboard_depth ≡ s.dashboard_depth) ⊎ (t.dashboard_depth ≡ 1)
  pub in_guides :
      (t.guide_depths ≡ s.guide_depths) ⊎ ((t.guide_depths ≡ (λ _. 0)) × (s.player_count ≡ 0))
  pub plays : t.guide_shown ≡ true → s.player_count ≤ t.player_count

IsLowered-IsKept : {s t u : Lobby} → IsLowered s t → IsKept t u → IsLowered s u
IsLowered-IsKept a b = record {
  hides = λ e. a.hides (b.hides e);
  on_dashboard = elim a.on_dashboard [
    | inl e ↦ inl (b.same_dashboard ∙ e)
    | inr e ↦ inr (b.same_dashboard ∙ e)
  ];
  in_guides = elim a.in_guides [
    | inl e ↦ inl (b.same_guides ∙ e)
    | inr (e, z) ↦ inr (b.same_guides ∙ e, z)
  ];
  plays = λ e. omega (arith, b.plays e, a.plays (b.hides e));
}

IsLowered-refl : (s : Lobby) → IsLowered s s
IsLowered-refl s = record {
  hides = λ e. e;
  on_dashboard = inl refl;
  in_guides = inl refl;
  plays = λ e. omega arith;
}

open_first-IsLowered : (s : Lobby) → IsLowered s (open_first s)
unfolding open_first
open_first-IsLowered s =
    if_both (IsLowered s) (s.player_count == 0)
      (λ e. record {
        hides = λ f. f;
        on_dashboard = inr refl;
        in_guides = inr (refl, (==_iff s.player_count 0).0 e);
        plays = λ f. omega arith;
      })
      (λ e. IsLowered-refl s)

log_in-IsLowered :
    (profile : ℕ) (device : Option ℕ) (s : Lobby) → IsLowered s (log_in profile device s)
unfolding log_in
log_in-IsLowered profile device s =
    let seated = take_seat profile (open_first s) in
    let alone = drop_down (λ m. is_device device m.device) stay seated.member_count seated in
    let closed = close_picker device (join profile device alone) in
    IsLowered-IsKept (open_first-IsLowered s) (
      IsKept-trans (take_seat-IsKept profile (open_first s)) (
        IsKept-trans
          (drop_down-IsKept (λ m. is_device device m.device) stay (λ m t. IsKept-refl t)
            seated.member_count seated)
          (IsKept-trans (join-IsKept profile device alone) (
            IsKept-trans (close_picker-IsKept device (join profile device alone))
              (seat_devices-IsKept closed)))))

login-IsLowered :
    (profile : ℕ) (device : Option ℕ) (s : Lobby) → IsLowered s (login profile device s)
unfolding login
login-IsLowered profile device s =
    if_both (IsLowered s) (profile == 0 || ltb profiles_max profile) (λ e. IsLowered-refl s)
      λ e. elim (Option-cases (seat_for s profile)) [
        | inl f ↦
            rw (f, login) (IsLowered-IsKept (IsLowered-refl s) (tell-IsKept Told.pads_taken s))
        | inr (seat, f) ↦ rw (f, login) (log_in-IsLowered profile device s)
      ]

lowered-Laid :
    (go : Lobby → Lobby) (m : Menu) → IsLowered m.lobby (go m.lobby) → Laid m → Laid (on_lobby go m)
lowered-Laid go m a h = record {
  low = elim a.on_dashboard [ inl e ↦ rw e h.low | inr e ↦ omega (arith, e) ];
  on_top = elim a.on_dashboard [
    | inl e ↦ rw e h.on_top
    | inr e ↦ IsStack-fewer _ (omega (arith, e, h.low)) h.on_top
  ];
  of_profile = λ p. elim a.in_guides [
    | inl e ↦ rw e (h.of_profile p)
    | inr (e, z) ↦ rw e (IsStack-fewer 0 (omega arith) (h.of_profile p))
  ];
  shows = λ s. elim a.in_guides [
    | inl e ↦ rw e (h.shows (a.hides s))
    | inr (e, z) ↦ absurd (omega (arith, z, h.plays (a.hides s)))
  ];
  plays = λ s. omega (arith, a.plays s, h.plays (a.hides s));
  whole = h.whole;
}

pub login-Laid :
    (profile : ℕ) (device : Option ℕ) (m : Menu) → Laid m → Laid (on_lobby (login profile device) m)
login-Laid profile device m h =
    lowered-Laid (login profile device) m (login-IsLowered profile device m.lobby) h

pub logout-Laid : (profile : ℕ) (m : Menu) → Laid m → Laid (on_lobby (logout profile) m)
logout-Laid profile m h =
    lowered-Laid (logout profile) m
      (IsLowered-IsKept (IsLowered-refl m.lobby) (logout-IsKept profile m.lobby)) h
