-- ===== src/Scene/Values/Settled.antt =====
-- A value that eases comes to rest, unless it was sprung before: step_value.
use anyconsole.Base.{
  ◌≡◌, refl, sym, ◌∙◌, ap, subst, Bool, true, false, not, ◌&&◌, List, [], ◌∷◌, if◌then◌else◌, arith,
}
use anyconsole.Base.Int.{pos}
use anyconsole.Scene.Floats.{Floats}
use anyconsole.Scene.Values.{
  Easing, Motion, Value, nought, settled, at_least, ease_on, move, step_value, step_all,
}

module _ ⦃F : Floats⦄ where
  open F use {Float, of_int, sub, div, fmin, less, same}

  -- A value that is drawn, and moves as `v` does, from wherever it is.
  record Eases (v w : Value) : Type 0 where
    pub same_target : w.target ≡ v.target
    pub same_velocity : w.velocity ≡ v.velocity
    pub same_start : w.started ≡ v.started
    pub is_set : w.set ≡ true
    pub is_ready : w.ready ≡ true

  -- The duration of an ease has passed.
  abbrev pub is_over : Float → Float → Value → Bool
  is_over clock seconds v =
      at_least (fmin (div (sub clock v.started) seconds) (of_int (pos 1))) (of_int (pos 1))

  drawn :
      {A : Type 0} (a b c : Bool) (x y z w : A)
      → a ≡ true
      → b ≡ true
      → (if not a then x else if not b then y else if c then z else w) ≡ (if c then z else w)
  drawn true true c x y z w e f = refl
  drawn true false c x y z w e f = absurd (ground arith)
  drawn false b c x y z w e f = absurd (ground arith)

  step_value-drawn :
      (clock tolerance : Float) (motion : Motion) (w : Value)
      → w.set ≡ true
      → w.ready ≡ true
      → step_value clock motion tolerance w
        ≡ (if settled w then (false, w) else (true, move clock motion tolerance w))
  unfolding step_value
  step_value-drawn clock tolerance motion w e f = drawn w.set w.ready (settled w) _ _ _ _ e f

  -- A value that is left alone, or one that has changed.
  abbrev either : Bool → Value → Value → Bool × Value
  either b w u = if b then (false, w) else (true, u)

  if-Eases : (v w u : Value) (b : Bool) → Eases v w → Eases v u → Eases v (either b w u).1
  if-Eases v w u true h k = h
  if-Eases v w u false h k = k

  ease_on-Eases :
      (clock seconds : Float) (curve : Easing) (v w : Value)
      → Eases v w
      → Eases v (ease_on clock seconds curve w)
  unfolding ease_on
  ease_on-Eases clock seconds curve v w h = record {
    same_target = h.same_target;
    same_velocity = h.same_velocity;
    same_start = h.same_start;
    is_set = h.is_set;
    is_ready = h.is_ready;
  }

  step_value-Eases :
      (clock seconds tolerance : Float) (curve : Easing) (v w : Value)
      → Eases v w
      → Eases v (step_value clock (Motion.ease seconds curve) tolerance w).1
  unfolding move
  step_value-Eases clock seconds tolerance curve v w h =
      subst (λ r. Eases v r.1)
        (sym (step_value-drawn clock tolerance (Motion.ease seconds curve) w h.is_set h.is_ready))
        (if-Eases v w _ (settled w) h (ease_on-Eases clock seconds curve v w h))

  step_all-Eases :
      (clocks : List Float) (seconds tolerance : Float) (curve : Easing) (v w : Value)
      → Eases v w
      → Eases v (step_all clocks (Motion.ease seconds curve) tolerance w)
  step_all-Eases [] seconds tolerance curve v w h = h
  step_all-Eases (clock ∷ clocks) seconds tolerance curve v w h =
      step_all-Eases clocks seconds tolerance curve v _
        (step_value-Eases clock seconds tolerance curve v w h)

  now-ease_on :
      (clock seconds : Float) (curve : Easing) (w : Value)
      → is_over clock seconds w ≡ true
      → (ease_on clock seconds curve w).now ≡ w.target
  unfolding ease_on
  now-ease_on clock seconds curve w over = rw over refl

  settled-ease_on :
      (clock seconds : Float) (curve : Easing) (w : Value)
      → same w.target w.target ≡ true
      → is_over clock seconds w ≡ true
      → settled (ease_on clock seconds curve w) ≡ same w.velocity nought
  unfolding ease_on
  settled-ease_on clock seconds curve w ieee over =
      ap (λ now. same now w.target && same w.velocity nought)
        (now-ease_on clock seconds curve w over)
      ∙ ap (λ b. b && same w.velocity nought) ieee

  settled-if :
      (w u : Value) (b c : Bool)
      → settled w ≡ b
      → (b ≡ true → c ≡ true)
      → settled u ≡ c
      → settled (either b w u).1 ≡ c
  settled-if w u true c h still k = h ∙ sym (still refl)
  settled-if w u false c h still k = k

  -- A value that is drawn and eases is settled after a frame that its duration has passed at, whatever
  -- frames were drawn before it, exactly if it had no velocity to begin with: an ease does not stop what
  -- a spring has left. Its target, as every number, is the same as itself.
  pub step_value-settled :
      (clocks : List Float) (clock seconds tolerance : Float) (curve : Easing) (v : Value)
      → v.set ≡ true
      → v.ready ≡ true
      → same v.target v.target ≡ true
      → is_over clock seconds v ≡ true
      → settled
          (step_value clock
            (Motion.ease seconds curve)
            tolerance
            (step_all clocks (Motion.ease seconds curve) tolerance v)).1
        ≡ same v.velocity nought
  unfolding move
  step_value-settled clocks clock seconds tolerance curve v is_set is_ready ieee over =
      ap (λ r. settled r.1)
        (step_value-drawn clock tolerance (Motion.ease seconds curve) w h.is_set h.is_ready)
      ∙ settled-if w (ease_on clock seconds curve w) (settled w) (same w.velocity nought) refl
          (λ e. ground arith)
          (settled-ease_on clock seconds curve w (ap (λ t. same t t) h.same_target ∙ ieee) (
            ap (λ t. at_least (fmin (div (sub clock t) seconds) (of_int (pos 1))) (of_int (pos 1)))
              h.same_start
            ∙ over))
      ∙ ap (λ x. same x nought) h.same_velocity
    where
      w : Value
      w = step_all clocks (Motion.ease seconds curve) tolerance v

      h : Eases v w
      h = step_all-Eases clocks seconds tolerance curve v v (record {
        same_target = refl;
        same_velocity = refl;
        same_start = refl;
        is_set = is_set;
        is_ready = is_ready;
      })
