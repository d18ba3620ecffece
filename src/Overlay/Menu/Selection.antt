-- ===== src/Overlay/Menu/Selection.antt =====
-- The selection of a view follows its row as the rows change: build.
use anyconsole.Base.{
  ℕ, zero, suc, ◌+◌, ◌<◌, ◌≡◌, refl, sym, ◌∙◌, ap, subst, inl, inr, true, false, some, List, [],
  ◌∷◌, arith, Bool-cases, if_true, if_false, if◌then◌else◌, length, get_elem?,
}
use mathlib.Core.Option.{some-injective, some-ne-none}
use anyconsole.Overlay.Menu.{Action, Row, View, World, Menu}
use anyconsole.Overlay.Menu.Rows.{same_row, last_match, clamp_row, screen_rows, build}

-- A row that has the action and the arg.
pub record IsMatch (action : Action) (arg : ℕ) (rows : List Row) (i : ℕ) : Type 0 where
  pub found : Row
  pub is_row : get_elem? rows i ≡ some found
  pub matches : same_row action arg found ≡ true

module _ (action : Action) (arg : ℕ) where
  data Matched (rows : List Row) (i found result : ℕ) : Type 0 where
    nowhere :
        ((k : ℕ) → IsMatch action arg rows k → ⊥) → result ≡ found → Matched rows i found result
    at : (k : ℕ) → IsMatch action arg rows k → result ≡ i + k → Matched rows i found result

  later :
      {r : Row} {rows : List Row} {k : ℕ}
      → IsMatch action arg rows k
      → IsMatch action arg (r ∷ rows) (suc k)
  later h = record { found = h.found; is_row = h.is_row; matches = h.matches }

  not_there :
      (r : Row) (rows : List Row)
      → same_row action arg r ≡ false
      → ((k : ℕ) → IsMatch action arg rows k → ⊥)
      → (k : ℕ) → IsMatch action arg (r ∷ rows) k
      → ⊥
  not_there r rows other absent zero h =
      absurd (cc (other, ap (same_row action arg) (some-injective _ _ h.is_row), h.matches))
  not_there r rows other absent (suc k) h =
      absent k (record { found = h.found; is_row = h.is_row; matches = h.matches })

  last_match-Matched :
      (rows : List Row) (i found : ℕ) → Matched rows i found (last_match action arg rows i found)
  unfolding last_match
  last_match-Matched [] i found = Matched.nowhere (λ k h. some-ne-none _ (sym h.is_row)) refl
  last_match-Matched (r ∷ rows) i found = elim (Bool-cases (same_row action arg r)) [
    | inl e ↦ elim (last_match-Matched rows (suc i) (if same_row action arg r then i else found)) [
      | Matched.nowhere absent f ↦
          Matched.at 0 (record { found = r; is_row = refl; matches = e })
            (f ∙ (if_true _ _ e ∙ omega arith))
      | Matched.at k h f ↦ Matched.at (suc k) (later h) (omega (arith, f))
    ]
    | inr e ↦ elim (last_match-Matched rows (suc i) (if same_row action arg r then i else found)) [
      | Matched.nowhere absent f ↦ Matched.nowhere (not_there r rows e absent) (f ∙ if_false _ _ e)
      | Matched.at k h f ↦ Matched.at (suc k) (later h) (omega (arith, f))
    ]
  ]

get-length : (rows : List Row) (i : ℕ) (r : Row) → get_elem? rows i ≡ some r → i < length rows
get-length [] i r e = absurd (some-ne-none _ (sym e))
get-length (x ∷ rows) zero r e = omega arith
get-length (x ∷ rows) (suc i) r e = omega (arith, get-length rows i r e)

clamp_row-lt : (count selected : ℕ) → 0 < count → clamp_row count selected < count
unfolding clamp_row
clamp_row-lt count selected low = ground arith

clamp_row-inside : (count selected : ℕ) → selected < count → clamp_row count selected ≡ selected
unfolding clamp_row
clamp_row-inside count selected low = ground arith

-- Whatever the rows of a view have become, if there are any then one of them is selected, and if there
-- is one with the action and the arg that were selected then such a row is selected.
pub build-selected :
    (w : World) (m : Menu) (v : View)
    → ((0 < length (build w m v).0) → (build w m v).1.selected < length (build w m v).0)
      × ((k : ℕ)
          → IsMatch v.action v.arg (build w m v).0 k
          → IsMatch v.action v.arg (build w m v).0 (build w m v).1.selected)
unfolding build
build-selected w m v =
    let rows = screen_rows w m v v.screen in
    (
      clamp_row-lt (length rows) (last_match v.action v.arg rows 0 v.selected),
      λ k h. elim (last_match-Matched v.action v.arg rows 0 v.selected) [
        | Matched.nowhere absent f ↦ absurd (absent k h)
        | Matched.at j g f ↦
            let inside = get-length rows j g.found g.is_row in
            subst (IsMatch v.action v.arg rows)
              (sym
                (clamp_row-inside (length rows) _ (omega (arith, f, inside)) ∙ (f ∙ omega arith)))
              g
      ],
    )
