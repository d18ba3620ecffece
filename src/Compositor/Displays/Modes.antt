-- ===== src/Compositor/Displays/Modes.antt =====
-- The mode that a display is given: display_mode.
use Prim.Native.String.{String}
use mathlib.Core.Option.{some-injective}
use anyconsole.Base.{
  ℕ, zero, suc, ◌≤◌, ◌≡◌, refl, sym, subst, inl, inr, true, false, some, List, [], ◌∷◌, get_elem?,
  arith, Bool-cases,
}
use anyconsole.Compositor.Displays.{
  Mode, Display, Screens, off_by, nearer, nearest, wanted_mode, display_mode,
}

-- `m` has the size of `base`.
pub record SameSize (base m : Mode) : Type 0 where
  pub same_width : m.width ≡ base.width
  pub same_height : m.height ≡ base.height

nearer-IsCloser :
    (base : Mode) (refresh : ℕ) (m best : Mode)
    → nearer base refresh m best ≡ true
    → SameSize base m × (off_by refresh m ≤ off_by refresh best)
unfolding nearer
nearer-IsCloser base refresh m best h =
    (record { same_width = ground arith; same_height = ground arith }, ground arith)

farther-le :
    (base : Mode) (refresh : ℕ) (m best : Mode)
    → nearer base refresh m best ≡ false
    → SameSize base m
    → off_by refresh best ≤ off_by refresh m
unfolding nearer
farther-le base refresh m best h size =
    let w = size.same_width in let v = size.same_height in ground arith

nearest-SameSize :
    (base : Mode) (refresh : ℕ) (ms : List Mode) (best : Mode)
    → SameSize base best
    → SameSize base (nearest base refresh ms best)
unfolding nearest
nearest-SameSize base refresh [] best h = h
nearest-SameSize base refresh (m ∷ ms) best h = elim (Bool-cases (nearer base refresh m best)) [
  | inl e ↦ rw e (nearest-SameSize base refresh ms m (nearer-IsCloser base refresh m best e).0)
  | inr e ↦ rw e (nearest-SameSize base refresh ms best h)
]

nearest-le :
    (base : Mode) (refresh : ℕ) (ms : List Mode) (best : Mode)
    → off_by refresh (nearest base refresh ms best) ≤ off_by refresh best
unfolding nearest
nearest-le base refresh [] best = omega arith
nearest-le base refresh (m ∷ ms) best = elim (Bool-cases (nearer base refresh m best)) [
  | inl e ↦
      rw (e, nearest)
        (omega (arith, nearest-le base refresh ms m, (nearer-IsCloser base refresh m best e).1))
  | inr e ↦ rw (e, nearest) (nearest-le base refresh ms best)
]

nearest-first :
    (base : Mode) (refresh : ℕ) (m : Mode) (ms : List Mode) (best : Mode)
    → SameSize base m
    → off_by refresh (nearest base refresh (m ∷ ms) best) ≤ off_by refresh m
unfolding nearest
nearest-first base refresh m ms best size = elim (Bool-cases (nearer base refresh m best)) [
  | inl e ↦ rw (e, nearest) (nearest-le base refresh ms m)
  | inr e ↦
      rw (e, nearest)
        (omega (arith, nearest-le base refresh ms best, farther-le base refresh m best e size))
]

nearest-IsNearest :
    (base : Mode) (refresh : ℕ) (ms : List Mode) (best : Mode) (i : ℕ) (m : Mode)
    → get_elem? ms i ≡ some m
    → SameSize base m
    → off_by refresh (nearest base refresh ms best) ≤ off_by refresh m
unfolding nearest
nearest-IsNearest base refresh [] best i m at size = absurd (ground arith)
nearest-IsNearest base refresh (k ∷ ms) best zero m at size =
    let e : k ≡ m = some-injective k m at in
    subst (λ x. off_by refresh (nearest base refresh (k ∷ ms) best) ≤ off_by refresh x) e
      (nearest-first base refresh k ms best (subst (SameSize base) (sym e) size))
nearest-IsNearest base refresh (k ∷ ms) best (suc i) m at size =
    nearest-IsNearest base refresh ms _ i m at size

-- The mode of a display has the size that is wanted, and of the output's modes of that size none is
-- nearer to the rate that is wanted.
pub display_mode-IsNearest :
    (print : Mode → String) (s : Screens) (d : Display) (i : ℕ) (m : Mode)
    → get_elem? d.modes i ≡ some m
    → SameSize (wanted_mode print s d).0 m
    → SameSize (wanted_mode print s d).0 (display_mode print s d)
      × (off_by (wanted_mode print s d).1 (display_mode print s d)
          ≤ off_by (wanted_mode print s d).1 m)
unfolding display_mode
display_mode-IsNearest print s d i m at size =
    let base = (wanted_mode print s d).0 in
    let refresh = (wanted_mode print s d).1 in
    (
      nearest-SameSize base refresh d.modes base (record { same_width = refl; same_height = refl }),
      nearest-IsNearest base refresh d.modes base i m at size,
    )
