-- ===== src/Scene/Atlas/Tests.antt =====
-- Examples of the glyph atlas: the third bitmap breaks the shelf, and the fourth the page.
use anyconsole.Base.{ℕ, ◌≡◌, refl, List, [], ◌∷◌, All, map, arith}
use anyconsole.Scene.Atlas.{Spot, break_shelf, advance, put_on, put_on_new, place, place_all}
use anyconsole.Scene.Atlas.Packed.{InBounds, AllApart, place_all-AllApart}

abbrev sizes : List (ℕ × ℕ)
sizes = (1000, 40) ∷ (1100, 50) ∷ (20, 2010) ∷ []

place_all-AllApart_example :
    All InBounds (place_all sizes ([], [])).1 × AllApart (place_all sizes ([], [])).1
place_all-AllApart_example =
    place_all-AllApart sizes
      ((omega arith, omega arith), ((omega arith, omega arith), ((omega arith, omega arith), tt)))

place_all_test :
    map {B = ℕ × ℕ} (λ (r : Spot). (r.page, r.y)) (place_all sizes ([], [])).1
    ≡ (1, 0) ∷ (0, 41) ∷ (0, 0) ∷ []
unfolding place_all place put_on put_on_new advance break_shelf
place_all_test = refl
