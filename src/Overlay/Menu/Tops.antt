-- ===== src/Overlay/Menu/Tops.antt =====
-- The screen on top says which stack is on top, and what a row that fits it may do.
use anyconsole.Base.{
  ◌-◌, ◌<◌, ◌≡◌, refl, sym, ◌∙◌, ap, subst, inl, inr, Bool, true, false, not, ◌&&◌, arith,
  Bool-cases, if_true, ◌==◌, ==_iff,
}
use anyconsole.Overlay.Menu.{
  Screen, Plane, plane_of, View, Menu, depth_of, guide_view, is_open, top,
}
use anyconsole.Overlay.Menu.Act.{is_dialog}
use anyconsole.Overlay.Menu.Navigate.{is_guide}
use anyconsole.Overlay.Menu.Stacks.{
  is_dashboard_plane, is_guide_plane, on_dashboard, on_guide, Laid,
}
use anyconsole.Overlay.Menu.Laid.{top_guide, top_dashboard}
use anyconsole.Overlay.Menu.Places.{Place, in_guide, suits}

-- What is on top: the picker, a view of the guide, or a view of the dashboard.
pub data OnTop (m : Menu) : Type 0 where
  by_picker : is_open m.lobby.picker ≡ true → (top m).screen ≡ Screen.whois → OnTop m
  by_guide :
      m.lobby.guide_shown ≡ true
      → 0 < depth_of m
      → top m ≡ guide_view m
      → on_guide (top m).screen ≡ true
      → OnTop m
  by_dashboard : m.lobby.guide_shown ≡ false → on_dashboard (top m).screen ≡ true → OnTop m

pub OnTop-cases : (m : Menu) → Laid m → OnTop m
unfolding top
OnTop-cases m h = elim (Bool-cases (is_open m.lobby.picker)) [
  | inl picks ↦ OnTop.by_picker picks (ap (λ (v : View). v.screen) (if_true _ _ picks))
  | inr away ↦ elim (Bool-cases m.lobby.guide_shown) [
    | inl shown ↦
        let e = top_guide m away shown in
        OnTop.by_guide shown (h.shows shown) e (
          ap (λ (v : View). on_guide v.screen) e
          ∙ (h.of_profile m.guide_profile).screens (depth_of m - 1) (omega (arith, h.shows shown)))
    | inr hidden ↦ OnTop.by_dashboard hidden (
        ap (λ (v : View). on_dashboard v.screen) (top_dashboard m away hidden)
        ∙ h.on_top.screens (m.lobby.dashboard_depth - 1) (omega (arith, h.low)))
  ]
]

-- What a row of a place needs of the menu.
abbrev pub Placed : Place → Menu → Type 0
Placed Place.anywhere m = Unit {0}
Placed Place.dashboard m = m.lobby.guide_shown ≡ false
Placed Place.guide m = m.lobby.guide_shown ≡ true
Placed Place.steady m = Unit {0}
Placed Place.inner m = (m.lobby.guide_shown ≡ true) × (1 < depth_of m)

plane_clash : (p : Plane) {P : Type 0} → is_dashboard_plane p ≡ true → is_guide_plane p ≡ true → P
plane_clash Plane.dashboard_plane e f = absurd (cc)
plane_clash Plane.guide_plane e f = absurd (cc)
plane_clash Plane.picker_plane e f = absurd (cc)
plane_clash Plane.dialog_plane e f = absurd (cc)

guide_clash : (p : Plane) {P : Type 0} → is_dashboard_plane p ≡ true → in_guide p ≡ true → P
guide_clash Plane.dashboard_plane e f = absurd (cc)
guide_clash Plane.guide_plane e f = absurd (cc)
guide_clash Plane.picker_plane e f = absurd (cc)
guide_clash Plane.dialog_plane e f = absurd (cc)

whois_clash : (s : Screen) {P : Type 0} → s ≡ Screen.whois → on_dashboard s ≡ true → P
unfolding plane_of
whois_clash s e f =
    absurd
      (let g : on_dashboard Screen.whois ≡ true = subst (λ t. on_dashboard t ≡ true) e f in cc g)

whois_away : (s : Screen) {P : Type 0} → s ≡ Screen.whois → in_guide (plane_of s) ≡ true → P
unfolding plane_of
whois_away s e f = absurd (
    let g : in_guide (plane_of Screen.whois) ≡ true =
      subst (λ t. in_guide (plane_of t) ≡ true) e f in
    cc g)

hidden-on_dashboard :
    (m : Menu) → Laid m → on_dashboard (top m).screen ≡ true → m.lobby.guide_shown ≡ false
hidden-on_dashboard m h e = elim (OnTop-cases m h) [
  | OnTop.by_picker p w ↦ whois_clash _ w e
  | OnTop.by_guide s d t f ↦ plane_clash (plane_of (top m).screen) e f
  | OnTop.by_dashboard s f ↦ s
]

shown-on_guide :
    (m : Menu) → Laid m → in_guide (plane_of (top m).screen) ≡ true → m.lobby.guide_shown ≡ true
shown-on_guide m h e = elim (OnTop-cases m h) [
  | OnTop.by_picker p w ↦ whois_away _ w e
  | OnTop.by_guide s d t f ↦ s
  | OnTop.by_dashboard s f ↦ guide_clash (plane_of (top m).screen) f e
]

-- Below a view that is not the guide's first there is another.
deep_view :
    (m : Menu)
    → Laid m
    → top m ≡ guide_view m
    → 0 < depth_of m
    → is_guide (top m).screen ≡ false
    → 1 < depth_of m
deep_view m h e low away = elim (Bool-cases (depth_of m == 1)) [
  | inl one ↦
      let bottom : depth_of m - 1 ≡ 0 = omega (arith, (==_iff (depth_of m) 1).0 one) in
      let first : is_guide (top m).screen ≡ true =
        ap (λ (v : View). is_guide v.screen) e
        ∙ (ap (λ i. is_guide (m.guides m.guide_profile i).screen) bottom
            ∙ (h.of_profile m.guide_profile).bottom low) in
      absurd (cc)
  | inr more ↦ ground arith
]

pub and_left : (a b : Bool) → (a && b) ≡ true → a ≡ true
and_left true b e = refl
and_left false b e = e

and_not : (a b : Bool) → (a && not b) ≡ true → b ≡ false
and_not true true e = sym e
and_not true false e = refl
and_not false b e = absurd (cc)

shown_deep :
    (m : Menu)
    → Laid m
    → in_guide (plane_of (top m).screen) ≡ true
    → is_guide (top m).screen ≡ false
    → 1 < depth_of m
shown_deep m h e away = elim (OnTop-cases m h) [
  | OnTop.by_picker p w ↦ whois_away _ w e
  | OnTop.by_guide s d t f ↦ deep_view m h t d away
  | OnTop.by_dashboard s f ↦ guide_clash (plane_of (top m).screen) f e
]

pub suits-Placed : (m : Menu) (p : Place) → Laid m → suits p (top m).screen ≡ true → Placed p m
suits-Placed m Place.anywhere h e = tt
suits-Placed m Place.steady h e = tt
suits-Placed m Place.dashboard h e = hidden-on_dashboard m h e
suits-Placed m Place.guide h e = shown-on_guide m h e
suits-Placed m Place.inner h e =
    let inside = and_left _ _ e in
    (shown-on_guide m h inside, shown_deep m h inside (and_not _ _ e))

-- A dialog lies over another view of the guide, and its rows need nothing of the menu.
dialog_clash : (s : Screen) {P : Type 0} → is_dialog (plane_of s) ≡ true → is_guide s ≡ true → P
unfolding plane_of
dialog_clash Screen.guide e f = absurd (cc)
dialog_clash s e f = absurd (cc)

dialog_dashboard : (p : Plane) {P : Type 0} → is_dialog p ≡ true → is_dashboard_plane p ≡ true → P
dialog_dashboard Plane.dialog_plane e f = absurd (cc)
dialog_dashboard Plane.dashboard_plane e f = absurd (cc)
dialog_dashboard Plane.guide_plane e f = absurd (cc)
dialog_dashboard Plane.picker_plane e f = absurd (cc)

dialog_inside : (p : Plane) {P : Type 0} → is_dialog p ≡ true → in_guide p ≡ true → P
dialog_inside Plane.dialog_plane e f = absurd (cc)
dialog_inside Plane.dashboard_plane e f = absurd (cc)
dialog_inside Plane.guide_plane e f = absurd (cc)
dialog_inside Plane.picker_plane e f = absurd (cc)

whois_dialog : (s : Screen) {P : Type 0} → s ≡ Screen.whois → is_dialog (plane_of s) ≡ true → P
unfolding plane_of
whois_dialog s e f = absurd (
    let g : is_dialog (plane_of Screen.whois) ≡ true =
      subst (λ t. is_dialog (plane_of t) ≡ true) e f in
    cc g)

pub dialog-deep : (m : Menu) → Laid m → is_dialog (plane_of (top m).screen) ≡ true → 1 < depth_of m
dialog-deep m h e = elim (OnTop-cases m h) [
  | OnTop.by_picker p w ↦ whois_dialog _ w e
  | OnTop.by_guide s d t f ↦
      deep_view m h t d
        (elim (Bool-cases (is_guide (top m).screen)) [ inl g ↦ dialog_clash _ e g | inr g ↦ g ])
  | OnTop.by_dashboard s f ↦ dialog_dashboard (plane_of (top m).screen) e f
]

pub dialog-Placed :
    (m : Menu) (p : Place) (s : Screen)
    → is_dialog (plane_of s) ≡ true
    → suits p s ≡ true
    → Placed p m
dialog-Placed m Place.anywhere s e f = tt
dialog-Placed m Place.steady s e f = tt
dialog-Placed m Place.dashboard s e f = dialog_dashboard (plane_of s) e f
dialog-Placed m Place.guide s e f = dialog_inside (plane_of s) e f
dialog-Placed m Place.inner s e f = dialog_inside (plane_of s) e (and_left _ _ f)
