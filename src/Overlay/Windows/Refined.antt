-- ===== src/Overlay/Windows/Refined.antt =====
-- The table of windows is a map from handles to windows: every event does to the table what it does to
-- the map.
use Prim.Native.String.{String}
use text.Mathlib.Text.{◌==◌ as str_eq}
use anyconsole.Base.{
  ℕ, zero, suc, ◌<◌, ◌≡◌, refl, sym, ◌∙◌, ap, subst, inl, inr, Bool, true, false, none, some, List,
  [], ◌∷◌, ◌==◌, ==_iff, ltb, if◌then◌else◌, arith, Bool-cases, Option-cases, if_true, if_false,
  if_both,
}
use mathlib.Core.Option.{some-injective, some-ne-none}
use anyconsole.Base.Counts.{write}
use anyconsole.Base.Loop.{for_below}
use anyconsole.Overlay.Windows.{
  Window, Windows, of_handle, is_listed, change_each, change_all, changed, on_toplevel_app_id,
  on_toplevel_state, on_listed_app_id, on_listed_closed, Event, step,
}
use anyconsole.Overlay.Windows.Registry.{Registry, change_if, change_map, map_step, Represents}
use anyconsole.Overlay.Windows.Opening.{on_toplevel-Represents, on_toplevel_closed-Represents}

abbrev changed_if : (Window → Bool) → (Window → Window) → Window → Window
changed_if test change w = if test w then change w else w

round-at :
    (test : Window → Bool) (change : Window → Window) (n : ℕ) (w : ℕ → Window) (k : ℕ)
    → (if test (w n) then write w n (change (w n)) else w) k
      ≡ (if n == k then changed_if test change (w k) else w k)
round-at test change n w k =
    if_both (λ (v : ℕ → Window). v k ≡ (if n == k then changed_if test change (w k) else w k))
      (test (w n))
      (λ e. elim (Bool-cases (n == k)) [
        | inl same ↦ rw same (
            subst (λ j. change (w n) ≡ changed_if test change (w j)) ((==_iff n k).0 same)
              (sym (if_true _ _ e)))
        | inr other ↦ rw other refl
      ])
      (λ e. elim (Bool-cases (n == k)) [
        | inl same ↦ rw same (
            subst (λ j. w j ≡ changed_if test change (w j)) ((==_iff n k).0 same)
              (sym (if_false _ _ e)))
        | inr other ↦ rw other refl
      ])

-- After so many rounds the windows before are changed that pass, and no others.
change_each-at :
    (test : Window → Bool) (change : Window → Window) (n : ℕ) (window : ℕ → Window) (k : ℕ)
    → change_each test change n window k
      ≡ (if ltb k n then changed_if test change (window k) else window k)
unfolding change_each for_below
change_each-at test change zero window k = let e : ltb k 0 ≡ false = ground arith in rw e refl
change_each-at test change (suc n) window k =
    let ih = change_each-at test change n window k in
    let round = round-at test change n (change_each test change n window) k in
    elim (Bool-cases (n == k)) [
      | inl same ↦
          let here : ltb k n ≡ false = ground arith in
          let there : ltb k (suc n) ≡ true = ground arith in
          round
          ∙ (if_true _ _ same
              ∙ (ap (changed_if test change) (ih ∙ if_false _ _ here) ∙ sym (if_true _ _ there)))
      | inr other ↦
          let as_before : ltb k n ≡ ltb k (suc n) = ground arith in
          round
          ∙ (if_false _ _ other
              ∙ (ih
                  ∙ ap (λ b. if b then changed_if test change (window k) else window k) as_before))
    ]

module _ (test : Window → Bool) (change : Window → Window)
    (keeps : (w : Window) → (change w).handle ≡ w.handle) where
  handle-changed_if : (w : Window) → (changed_if test change w).handle ≡ w.handle
  handle-changed_if w =
      if_both (λ (v : Window). v.handle ≡ w.handle) (test w) (λ e. keeps w) (λ e. refl)

  module _ (s : Windows) (r : Registry) (h : Represents s r) where
    at :
        (k : ℕ)
        → k < s.count
        → (change_all test change s).window k ≡ changed_if test change (s.window k)
    at k lt =
        let e : ltb k s.count ≡ true = ground arith in
        change_each-at test change s.count s.window k ∙ if_true _ _ e

    change_all-Represents : Represents (change_all test change s) (change_map test change r)
    change_all-Represents = record {
      sized = h.sized;
      listed = λ i lt.
          subst (λ (w : Window). change_if test change (r.at w.handle) ≡ some w) (sym (at i lt))
            (ap (λ k. change_if test change (r.at k)) (handle-changed_if (s.window i))
              ∙ ap (change_if test change) (h.listed i lt));
      only = λ k w e. elim (Option-cases (r.at k)) [
        | inl z ↦ absurd (some-ne-none _ (sym e ∙ ap (change_if test change) z))
        | inr (v, f) ↦
            let (i, lt, g, q) = h.only k v f in
            let p : changed_if test change v ≡ w =
              some-injective _ _ (sym (ap (change_if test change) f) ∙ e) in
            (
              i,
              lt,
              at i lt ∙ (ap (changed_if test change) g ∙ p),
              sym (ap (λ (u : Window). u.handle) p) ∙ (handle-changed_if v ∙ q),
            )
      ];
      distinct = λ i k lt below e. h.distinct i k lt below (
          sym (ap (λ (w : Window). w.handle) (at i lt) ∙ handle-changed_if (s.window i))
          ∙ (e ∙ (ap (λ (w : Window). w.handle) (at k below) ∙ handle-changed_if (s.window k))));
    }

changed-Represents : (s : Windows) (r : Registry) → Represents s r → Represents (changed s) r
changed-Represents s r h = record {
  sized = h.sized;
  listed = h.listed;
  only = h.only;
  distinct = h.distinct;
}

-- Wayland names a new window by a handle that no window has.
abbrev pub IsFresh : Event → Registry → Type 0
IsFresh (Event.opened handle) r = r.at handle ≡ none
IsFresh e r = Unit {0}

step-Represents :
    (kept : String → String) (e : Event) (s : Windows) (r : Registry)
    → IsFresh e r
    → Represents s r
    → Represents (step kept e s) (map_step kept e r)
unfolding step map_step on_toplevel_app_id on_toplevel_state on_listed_app_id on_listed_closed
step-Represents kept (Event.opened handle) s r fresh h = on_toplevel-Represents handle s r h fresh
step-Represents kept (Event.closed handle) s r fresh h = on_toplevel_closed-Represents handle s r h
step-Represents kept (Event.named handle app_id) s r fresh h = changed-Represents _ _ (
    change_all-Represents (of_handle handle) (λ w. record w { app_id = kept app_id }) (λ w. refl) s
      r h)
step-Represents kept (Event.activates handle activated) s r fresh h = changed-Represents _ _ (
    change_all-Represents (of_handle handle) (λ w. record w { activated = activated }) (λ w. refl) s
      r h)
step-Represents kept (Event.listed_named listed app_id) s r fresh h =
    change_all-Represents (λ w. str_eq w.app_id app_id) (λ w. record w { listed = some listed })
      (λ w. refl) s r h
step-Represents kept (Event.listed_closed listed) s r fresh h =
    change_all-Represents (λ w. is_listed w.listed listed) (λ w. record w { listed = none })
      (λ w. refl) s r h

abbrev pub steps : (String → String) → List Event → Windows → Windows
steps kept [] s = s
steps kept (e ∷ es) s = steps kept es (step kept e s)

abbrev pub map_steps : (String → String) → List Event → Registry → Registry
map_steps kept [] r = r
map_steps kept (e ∷ es) r = map_steps kept es (map_step kept e r)

abbrev pub AllFresh : (String → String) → List Event → Registry → Type 0
AllFresh kept [] r = Unit {0}
AllFresh kept (e ∷ es) r = IsFresh e r × AllFresh kept es (map_step kept e r)

-- Through any sequence of the compositor's events, of which each new window has a handle that no other
-- window has at that time, the table has exactly the windows of the map, each once, whatever the order
-- in the table: a closed window goes and every other stays as it is, and a change reaches every window
-- that it is for and no other.
pub steps-Represents :
    (kept : String → String) (es : List Event) (s : Windows) (r : Registry)
    → AllFresh kept es r
    → Represents s r
    → Represents (steps kept es s) (map_steps kept es r)
steps-Represents kept [] s r fresh h = h
steps-Represents kept (e ∷ es) s r (f, fresh) h =
    steps-Represents kept es (step kept e s) (map_step kept e r) fresh
      (step-Represents kept e s r f h)
