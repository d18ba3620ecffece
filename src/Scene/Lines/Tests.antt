-- ===== src/Scene/Lines/Tests.antt =====
-- Examples of lines: glyphs of the same advance, on lines that two of them fill.
use anyconsole.Base.{
  ℕ, ◌+◌, ◌-◌, ◌*◌, ◌/◌, ◌≡◌, ◌≤◌, ◌⊎◌, refl, Bool, true, false, List, [], ◌∷◌, length, map, ltb,
  ◌==◌, if◌then◌else◌,
}
use anyconsole.Base.Int.{pos_part}
use anyconsole.Scene.Floats.{Floats}
use anyconsole.Scene.Lines.{
  Shaped, Line, Broken, break_all, break_from, note_break, line_end, overflows, next_line, move_on,
}
use anyconsole.Scene.Lines.Partition.{Chain, break_all-Chain, break_all-length}

-- Whole numbers stand for floats.
abbrev pub whole : Floats
whole = record {
  Float = ℕ;
  of_int = pos_part;
  add = λ a b. a + b;
  sub = λ a b. a - b;
  mul = λ a b. a * b;
  div = λ a b. a / b;
  fmin = λ a b. if ltb b a then b else a;
  sqrt = λ a. a;
  fabs = λ a. a;
  less = ltb;
  same = λ a b. a == b;
  is_nan = λ _. false;
}

abbrev letter : Bool → Shaped ⦃F = whole⦄
letter breakable = record { advance = 10; breakable = breakable }

abbrev text : List (Shaped ⦃F = whole⦄)
text = letter false ∷ letter false ∷ letter true ∷ letter false ∷ letter false ∷ []

abbrev two_wide : Broken ⦃F = whole⦄
two_wide = record { available = 25; ratio = 1; wrap = true }

break_all-Chain_example :
    ((text ≡ []) × (break_all ⦃F = whole⦄ two_wide text ≡ []))
    ⊎ Chain ⦃F = whole⦄ 0 (break_all ⦃F = whole⦄ two_wide text) (length text)
break_all-Chain_example = break_all-Chain ⦃F = whole⦄ two_wide text

break_all-length_example : length (break_all ⦃F = whole⦄ two_wide text) ≤ length text
break_all-length_example = break_all-length ⦃F = whole⦄ two_wide text

break_all_test :
    map (λ (l : Line ⦃F = whole⦄). l.end) (break_all ⦃F = whole⦄ two_wide text) ≡ 2 ∷ 4 ∷ 5 ∷ []
unfolding break_all break_from note_break line_end overflows next_line move_on
break_all_test = refl
