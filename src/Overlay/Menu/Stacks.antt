-- ===== src/Overlay/Menu/Stacks.antt =====
-- The stacks of views stay within their bounds and on their plane: push, pop_guide, set_top, resume.
use anyconsole.Base.{
  ℕ, ◌+◌, ◌≤◌, ◌<◌, ◌≡◌, refl, ◌∙◌, ap, inl, inr, Bool, true, false, ◌==◌, ==_iff, arith,
  Bool-cases,
}
use anyconsole.Overlay.Menu.{Screen, Plane, plane_of, View, Menu, depth_max, write_view}
use anyconsole.Overlay.Menu.Navigate.{is_guide}
use anyconsole.Overlay.Menu.Requests.{is_home}

-- The planes of the dashboard and of a guide, whose dialogs lie over it.
abbrev pub is_dashboard_plane : Plane → Bool
is_dashboard_plane Plane.dashboard_plane = true
is_dashboard_plane plane = false

abbrev pub is_guide_plane : Plane → Bool
is_guide_plane Plane.guide_plane = true
is_guide_plane Plane.dialog_plane = true
is_guide_plane plane = false

abbrev pub on_dashboard : Screen → Bool
on_dashboard screen = is_dashboard_plane (plane_of screen)

abbrev pub on_guide : Screen → Bool
on_guide screen = is_guide_plane (plane_of screen)

-- A stack of so many views, all of one kind of screen, on a first one of its own.
pub record IsStack (first all : Screen → Bool) (depth : ℕ) (views : ℕ → View) : Type 0 where
  pub high : depth ≤ depth_max
  pub screens : (i : ℕ) → i < depth → all (views i).screen ≡ true
  pub bottom : 0 < depth → first (views 0).screen ≡ true

screen-write_view :
    (views : ℕ → View) (i k : ℕ) (v : View)
    → v.screen ≡ (views i).screen
    → (write_view views i v k).screen ≡ (views k).screen
screen-write_view views i k v e = elim (Bool-cases (i == k)) [
  | inl same ↦ rw same (e ∙ ap (λ j. (views j).screen) ((==_iff i k).0 same))
  | inr other ↦ rw other refl
]

module _ {first all : Screen → Bool} where
  pub IsStack-fewer :
      {d : ℕ} {views : ℕ → View} (n : ℕ)
      → n ≤ d
      → IsStack first all d views
      → IsStack first all n views
  IsStack-fewer n le h = record {
    high = omega (arith, h.high);
    screens = λ i lt. h.screens i (omega arith);
    bottom = λ lt. h.bottom (omega arith);
  }

  pub IsStack-write :
      {d : ℕ} {views : ℕ → View} (i : ℕ) (v : View)
      → v.screen ≡ (views i).screen
      → IsStack first all d views
      → IsStack first all d (write_view views i v)
  IsStack-write {views} i v e h = record {
    high = h.high;
    screens = λ k lt. ap all (screen-write_view views i k v e) ∙ h.screens k lt;
    bottom = λ lt. ap first (screen-write_view views i 0 v e) ∙ h.bottom lt;
  }

  pub IsStack-push :
      {d : ℕ} {views : ℕ → View} (v : View)
      → d < depth_max
      → 0 < d
      → all v.screen ≡ true
      → IsStack first all d views
      → IsStack first all (d + 1) (write_view views d v)
  IsStack-push {d} {views} v room low fits h = record {
    high = omega arith;
    screens = λ k lt. elim (Bool-cases (d == k)) [
      | inl same ↦ rw same fits
      | inr other ↦ rw other (h.screens k (ground arith))
    ];
    bottom = λ lt. let other : (d == 0) ≡ false = ground arith in rw other (h.bottom low);
  }

-- The menu, without what no stack depends on.
pub record IsLaid (dashboard_depth : ℕ) (dashboard : ℕ → View) (guide_depths : ℕ → ℕ)
    (guides : ℕ → ℕ → View) (profile : ℕ) (shown : Bool) (players : ℕ) (broken : Bool)
    : Type 0 where
  pub low : 0 < dashboard_depth
  pub on_top : IsStack is_home on_dashboard dashboard_depth dashboard
  pub of_profile : (p : ℕ) → IsStack is_guide on_guide (guide_depths p) (guides p)
  pub shows : shown ≡ true → 0 < guide_depths profile
  pub plays : shown ≡ true → 0 < players
  pub whole : broken ≡ false

-- The dashboard has its home screen, no stack is deeper than 4, every screen lies in the stack of its
-- plane, a guide that has views has its first screen, a guide that shows has a view and a player, and no
-- depth has ever gone below 0.
abbrev pub Laid : Menu → Type 0
Laid m =
    IsLaid m.lobby.dashboard_depth m.dashboard m.lobby.guide_depths m.guides m.guide_profile
      m.lobby.guide_shown m.lobby.player_count m.is_broken
