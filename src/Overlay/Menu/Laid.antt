-- ===== src/Overlay/Menu/Laid.antt =====
-- The operations of the stacks keep them as they should be: set_top, set_depth, pop_guide, push_guide,
-- push_dashboard, push.
use anyconsole.Base.{
  ℕ, ◌+◌, ◌-◌, ◌≤◌, ◌<◌, ◌≡◌, refl, sym, ◌∙◌, ap, subst, inl, inr, true, false, Option, ◌==◌,
  ==_iff, ltb, ltb→lt, arith, Bool-cases, if_true, if_false, if_both,
}
use anyconsole.Overlay.Menu.{
  Screen, View, Menu, depth_max, depth_of, guide_view, is_open, top, write_view, set_top, set_depth,
  pop_guide, push_guide, push_dashboard, push, new_view, write_guide, write_dashboard,
  with_picker_view,
}
use anyconsole.Overlay.Menu.Navigate.{is_guide}
use anyconsole.Overlay.Menu.Stacks.{
  on_dashboard, on_guide, IsStack, IsStack-fewer, IsStack-write, IsStack-push, Laid,
}

pub write_dashboard-Laid :
    (i : ℕ) (v : View) (m : Menu)
    → v.screen ≡ (m.dashboard i).screen
    → Laid m
    → Laid (write_dashboard i v m)
write_dashboard-Laid i v m e h = record {
  low = h.low;
  on_top = IsStack-write i v e h.on_top;
  of_profile = h.of_profile;
  shows = h.shows;
  plays = h.plays;
  whole = h.whole;
}

pub write_guide-Laid :
    (profile i : ℕ) (v : View) (m : Menu)
    → v.screen ≡ (m.guides profile i).screen
    → Laid m
    → Laid (write_guide profile i v m)
write_guide-Laid profile i v m e h = record {
  low = h.low;
  on_top = h.on_top;
  of_profile = λ p. elim (Bool-cases (profile == p)) [
    | inl same ↦ rw same (
        IsStack-write i v (e ∙ ap (λ q. (m.guides q i).screen) ((==_iff profile p).0 same))
          (h.of_profile p))
    | inr other ↦ rw other (h.of_profile p)
  ];
  shows = h.shows;
  plays = h.plays;
  whole = h.whole;
}

pub top_guide :
    (m : Menu) → is_open m.lobby.picker ≡ false → m.lobby.guide_shown ≡ true → top m ≡ guide_view m
unfolding top
top_guide m away shown = if_false _ _ away ∙ if_true _ _ shown

pub top_dashboard :
    (m : Menu)
    → is_open m.lobby.picker ≡ false
    → m.lobby.guide_shown ≡ false
    → top m ≡ m.dashboard (m.lobby.dashboard_depth - 1)
unfolding top
top_dashboard m away hidden = if_false _ _ away ∙ if_false _ _ hidden

-- What is written over the view on top has its screen.
pub set_top-Laid : (v : View) (m : Menu) → v.screen ≡ (top m).screen → Laid m → Laid (set_top v m)
unfolding set_top
set_top-Laid v m e h =
    if_both Laid (is_open m.lobby.picker) (λ picks. h)
      λ away.
        if_both Laid m.lobby.guide_shown
          (λ shown.
            write_guide-Laid m.guide_profile (depth_of m - 1) v m
              (e ∙ ap (λ (u : View). u.screen) (top_guide m away shown)) h)
          λ hidden.
            write_dashboard-Laid (m.lobby.dashboard_depth - 1) v m
              (e ∙ ap (λ (u : View). u.screen) (top_dashboard m away hidden)) h

pub top_picker : (m : Menu) → is_open m.lobby.picker ≡ true → (top m).screen ≡ Screen.whois
unfolding top
top_picker m picks = ap (λ (v : View). v.screen) (if_true _ _ picks)

written_guide :
    (profile i : ℕ) (v : View) (m : Menu) → (write_guide profile i v m).guides profile i ≡ v
written_guide profile i v m =
    let own : (profile == profile) ≡ true = ground arith in
    let here : (i == i) ≡ true = ground arith in rw own (rw here refl)

written_dashboard : (i : ℕ) (v : View) (m : Menu) → (write_dashboard i v m).dashboard i ≡ v
written_dashboard i v m = let here : (i == i) ≡ true = ground arith in rw here refl

-- A write over the view on top that keeps its screen keeps the screen on top.
pub set_top-top :
    (v : View) (m : Menu) → v.screen ≡ (top m).screen → (top (set_top v m)).screen ≡ (top m).screen
unfolding set_top
set_top-top v m e =
    if_both (λ n. (top n).screen ≡ (top m).screen) (is_open m.lobby.picker)
      (λ picks. top_picker (with_picker_view v m) picks ∙ sym (top_picker m picks))
      λ away.
        if_both (λ n. (top n).screen ≡ (top m).screen) m.lobby.guide_shown
          (λ shown.
            let written = write_guide m.guide_profile (depth_of m - 1) v m in
            ap (λ (u : View). u.screen) (top_guide written away shown)
            ∙ (ap (λ (u : View). u.screen) (written_guide m.guide_profile (depth_of m - 1) v m)
                ∙ e))
          λ hidden.
            let below = m.lobby.dashboard_depth - 1 in
            ap (λ (u : View). u.screen) (top_dashboard (write_dashboard below v m) away hidden)
            ∙ (ap (λ (u : View). u.screen) (written_dashboard below v m) ∙ e)

-- A depth that is no higher, and above 0 for the guide that shows.
pub set_depth-Laid :
    (profile n : ℕ) (m : Menu)
    → n ≤ m.lobby.guide_depths profile
    → ((profile == m.guide_profile) ≡ true → m.lobby.guide_shown ≡ true → 0 < n)
    → Laid m
    → Laid (set_depth profile n m)
set_depth-Laid profile n m le low h = record {
  low = h.low;
  on_top = h.on_top;
  of_profile = λ p. elim (Bool-cases (profile == p)) [
    | inl same ↦ rw same (
        IsStack-fewer n (subst (λ q. n ≤ m.lobby.guide_depths q) ((==_iff profile p).0 same) le)
          (h.of_profile p))
    | inr other ↦ rw other (h.of_profile p)
  ];
  shows = λ s. elim (Bool-cases (profile == m.guide_profile)) [
    | inl same ↦ rw same (low same s)
    | inr other ↦ rw other (h.shows s)
  ];
  plays = h.plays;
  whole = h.whole;
}

pub pop_guide-Laid :
    (m : Menu)
    → (0 < depth_of m)
    → (m.lobby.guide_shown ≡ true → 1 < depth_of m)
    → Laid m
    → Laid (pop_guide m)
unfolding pop_guide
pop_guide-Laid m low deep h =
    let some_left : (depth_of m == 0) ≡ false = ground arith in
    rw some_left (
      set_depth-Laid m.guide_profile (depth_of m - 1) m (omega arith) (λ e s. omega (arith, deep s))
        h)

push_guide-IsStack :
    (profile d : ℕ) (v : View) (m : Menu)
    → d ≡ m.lobby.guide_depths profile
    → d < depth_max
    → 0 < d
    → on_guide v.screen ≡ true
    → Laid m
    → IsStack is_guide on_guide (d + 1) (write_view (m.guides profile) d v)
push_guide-IsStack profile d v m e room low fits h =
    IsStack-push v room low fits
      (subst (λ n. IsStack is_guide on_guide n (m.guides profile)) (sym e) (h.of_profile profile))

pub push_guide-Laid :
    (v : View) (m : Menu)
    → depth_of m < depth_max
    → 0 < depth_of m
    → on_guide v.screen ≡ true
    → Laid m
    → Laid (push_guide v m)
unfolding push_guide
push_guide-Laid v m room low fits h = record {
  low = h.low;
  on_top = h.on_top;
  of_profile = λ p. elim (Bool-cases (m.guide_profile == p)) [
    | inl same ↦ rw same (
        push_guide-IsStack p (depth_of m) v m
          (ap m.lobby.guide_depths ((==_iff m.guide_profile p).0 same)) room low fits h)
    | inr other ↦ rw other (h.of_profile p)
  ];
  shows = λ s.
      let own : (m.guide_profile == m.guide_profile) ≡ true = ground arith in rw own (omega arith);
  plays = h.plays;
  whole = h.whole;
}

pub push_dashboard-Laid :
    (v : View) (m : Menu)
    → m.lobby.dashboard_depth < depth_max
    → on_dashboard v.screen ≡ true
    → Laid m
    → Laid (push_dashboard v m)
unfolding push_dashboard
push_dashboard-Laid v m room fits h = record {
  low = omega arith;
  on_top = IsStack-push v room h.low fits h.on_top;
  of_profile = h.of_profile;
  shows = h.shows;
  plays = h.plays;
  whole = h.whole;
}

-- A screen is pushed on the stack of its plane.
pub push-Laid :
    (screen : Screen) (shown : Option ℕ) (m : Menu)
    → (m.lobby.guide_shown ≡ true → on_guide screen ≡ true)
    → (m.lobby.guide_shown ≡ false → on_dashboard screen ≡ true)
    → Laid m
    → Laid (push screen shown m)
unfolding push
push-Laid screen shown m over under h =
    if_both Laid m.lobby.guide_shown
      (λ s.
        if_both Laid (ltb (depth_of m) depth_max)
          (λ room.
            push_guide-Laid (new_view screen shown) m (ltb→lt _ _ room) (h.shows s) (over s) h)
          λ full. h)
      λ u.
        if_both Laid (ltb m.lobby.dashboard_depth depth_max)
          (λ room. push_dashboard-Laid (new_view screen shown) m (ltb→lt _ _ room) (under u) h)
          λ full. h
