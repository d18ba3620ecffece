-- ===== src/Compositor/Boxes/Inside.antt =====
-- A picture stays inside the box it is fitted to, in the middle and as large as it can be.
use anyconsole.Base.{
  ℕ, ◌+◌, ◌-◌, ◌*◌, ◌/◌, ◌≤◌, ◌<◌, ◌≡◌, refl, ap, ◌⊎◌, inl, inr, ltb, arith, Bool-cases,
}
use anyconsole.Base.Int.{pos, ◌+ℤ◌}
use native.Mathlib.Nat.{
  div-mul-le_self, lt-div-mul-add, div-lt_iff_lt-mul, mul-le-mul_left, mul_comm,
}
use anyconsole.Compositor.Boxes.{
  Box, half_between, centered, fit, place, factor_of, min_integer_scale,
}

-- The middle of `outer`: the margins on both sides differ by one at most.
pub record IsInside (inner outer : Box) : Type 0 where
  pub left : ℕ
  pub top : ℕ
  pub at_left : inner.x ≡ outer.x +ℤ pos left
  pub at_top : inner.y ≡ outer.y +ℤ pos top
  pub in_width : left * 2 + inner.width ≤ outer.width × outer.width ≤ left * 2 + inner.width + 1
  pub in_height : top * 2 + inner.height ≤ outer.height × outer.height ≤ top * 2 + inner.height + 1

half_between-le : (a b : ℕ) → b ≤ a → half_between a b ≡ pos ((a - b) / 2)
half_between-le a b le = ground arith

pub centered-IsInside :
    (outer : Box) (width height : ℕ)
    → width ≤ outer.width
    → height ≤ outer.height
    → IsInside (centered outer width height) outer
unfolding centered
centered-IsInside outer width height w h = record {
  left = (outer.width - width) / 2;
  top = (outer.height - height) / 2;
  at_left = ap (λ d. outer.x +ℤ d) (half_between-le outer.width width w);
  at_top = ap (λ d. outer.y +ℤ d) (half_between-le outer.height height h);
  in_width = (omega arith, omega arith);
  in_height = (omega arith, omega arith);
}

-- `inner` is inside `outer`, takes one of its sides whole, and has the given aspect up to rounding
-- down.
pub record IsFitted (inner outer : Box) (across down : ℕ) : Type 0 where
  pub inside : IsInside inner outer
  pub shape :
      ((inner.width ≡ outer.width)
        × (inner.height * across ≤ outer.width * down)
        × (outer.width * down < inner.height * across + across))
      ⊎ ((inner.height ≡ outer.height)
          × (inner.width * down ≤ outer.height * across)
          × (outer.height * across < inner.width * down + down))

quotient-le : (a b k : ℕ) → 0 < k → a ≤ b * k → a / k ≤ b
quotient-le a b k positive le =
    let below : a / k < b + 1 = (div-lt_iff_lt-mul positive).1 (omega (arith, le, positive)) in
    omega arith

-- A fitted picture lies in the middle of the box, takes its width or its height whole, and has the
-- given aspect up to rounding, if no side of that aspect is 0.
pub fit-IsFitted :
    (outer : Box) (across down : ℕ)
    → 0 < across
    → 0 < down
    → IsFitted (fit outer across down) outer across down
unfolding fit centered
fit-IsFitted outer across down wide high =
    elim (Bool-cases (ltb (outer.height * across) (outer.width * down))) [
      | inl e ↦ rw e (record {
        inside =
            centered-IsInside outer (outer.height * across / down) outer.height
              (quotient-le (outer.height * across) outer.width down high (ground arith))
              (omega arith);
        shape = inr (refl, div-mul-le_self (outer.height * across) down, lt-div-mul-add high);
      })
      | inr e ↦ rw e (record {
        inside =
            centered-IsInside outer outer.width (outer.width * down / across) (omega arith)
              (quotient-le (outer.width * down) outer.height across wide (ground arith));
        shape = inl (refl, div-mul-le_self (outer.width * down) across, lt-div-mul-add wide);
      })
    ]

scaled-le : (factor size side : ℕ) → factor ≤ side / size → size * factor ≤ side
scaled-le factor size side le =
    let a : size * factor ≤ size * (side / size) = mul-le-mul_left size le in
    let b : side / size * size ≤ side = div-mul-le_self side size in
    let c : size * (side / size) ≡ side / size * size = mul_comm size (side / size) in omega arith

factor_of-le :
    (outer : Box) (width height : ℕ)
    → (factor_of outer width height ≤ outer.width / width)
      × (factor_of outer width height ≤ outer.height / height)
unfolding factor_of
factor_of-le outer width height = (ground arith, ground arith)

next-multiple : (size side : ℕ) → 0 < size → side < size * (side / size) + size
next-multiple size side positive =
    let a : side < side / size * size + size = lt-div-mul-add positive in
    let c : size * (side / size) ≡ side / size * size = mul_comm size (side / size) in omega arith

factor_of-most :
    (outer : Box) (width height : ℕ)
    → 0 < width
    → 0 < height
    → (outer.width < width * factor_of outer width height + width)
      ⊎ (outer.height < height * factor_of outer width height + height)
unfolding factor_of
factor_of-most outer width height wide high =
    elim (Bool-cases (ltb (outer.width / width) (outer.height / height))) [
      | inl e ↦ rw e (inl (next-multiple width outer.width wide))
      | inr e ↦ rw e (inr (next-multiple height outer.height high))
    ]

-- Twice the size does not fit where the factor is below 2.
factor_of-small :
    (outer : Box) (width height : ℕ)
    → 0 < width
    → 0 < height
    → factor_of outer width height < min_integer_scale
    → (outer.width < width * 2) ⊎ (outer.height < height * 2)
factor_of-small outer width height wide high small =
    elim (factor_of-most outer width height wide high) [
      | inl w ↦
          inl (
            omega
              (arith, w, mul-le-mul_left width (factor-le (factor_of outer width height) small)))
      | inr h ↦ inr (
          omega (arith, h, mul-le-mul_left height (factor-le (factor_of outer width height) small)))
    ]
  where
    factor-le : (factor : ℕ) → factor < min_integer_scale → factor ≤ 1
    factor-le factor lt = omega arith

-- The size is so many whole times the picture's, at least twice, and once more does not fit.
pub record IsMultiple (inner outer : Box) (width height : ℕ) : Type 0 where
  pub factor : ℕ
  pub twice : min_integer_scale ≤ factor
  pub wide : inner.width ≡ width * factor
  pub high : inner.height ≡ height * factor
  pub most : (outer.width < width * factor + width) ⊎ (outer.height < height * factor + height)

-- A placed game, of which no side is 0, lies inside the box and in the middle of it. Either twice its
-- size fits, and it is as many whole times its size as fit; or twice its size does not fit, and it takes
-- one side of the box whole, with its own aspect up to rounding down.
pub place-IsInside :
    (outer : Box) (width height : ℕ)
    → 0 < width
    → 0 < height
    → IsInside (place outer width height) outer
      × (((width * 2 ≤ outer.width)
            × (height * 2 ≤ outer.height)
            × IsMultiple (place outer width height) outer width height)
          ⊎ (((outer.width < width * 2) ⊎ (outer.height < height * 2))
              × IsFitted (place outer width height) outer width height))
unfolding place centered
place-IsInside outer width height wide high =
    elim (Bool-cases (ltb (factor_of outer width height) min_integer_scale)) [
      | inl e ↦ rw e (
          let f = fit-IsFitted outer width height wide high in
          (f.inside, inr (factor_of-small outer width height wide high (ground arith), f)))
      | inr e ↦ rw e (
          let le = factor_of-le outer width height in
          let across = scaled-le _ width outer.width le.0 in
          let down = scaled-le _ height outer.height le.1 in
          let twice : min_integer_scale ≤ factor_of outer width height = ground arith in
          (
            centered-IsInside outer _ _ across down,
            inl (
              omega (arith, across, mul-le-mul_left width twice),
              omega (arith, down, mul-le-mul_left height twice),
              record {
                factor = factor_of outer width height;
                twice = twice;
                wide = refl;
                high = refl;
                most = factor_of-most outer width height wide high;
              },
            ),
          ))
    ]
