-- ===== src/Scene/Values/Tests.antt =====
-- Examples of values: one that a spring has left with a velocity of 3, and that eases to 9.
use anyconsole.Base.{◌≡◌, refl, true, false, [], ◌∷◌}
use anyconsole.Scene.Lines.Tests.{whole}
use anyconsole.Scene.Values.{Easing, Motion, Value, settled, step_value, step_all}
use anyconsole.Scene.Values.Settled.{step_value-settled}

abbrev sprung : Value ⦃F = whole⦄
sprung = record {
  now = 5;
  target = 9;
  velocity = 3;
  origin = 5;
  from = 0;
  started = 100;
  stepped = 100;
  set = true;
  has_from = false;
  ready = true;
  unit = 0;
}

step_value-settled_example :
    settled ⦃F = whole⦄
      (step_value ⦃F = whole⦄ 130
        (Motion.ease 20 Easing.ease_out)
        1
        (step_all ⦃F = whole⦄ (110 ∷ []) (Motion.ease 20 Easing.ease_out) 1 sprung)).1
    ≡ false
step_value-settled_example =
    step_value-settled ⦃F = whole⦄ (110 ∷ []) 130 20 1 Easing.ease_out sprung refl refl refl refl
