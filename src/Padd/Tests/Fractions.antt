-- ===== src/Padd/Tests/Fractions.antt =====
-- A concrete double for the tests: exact fractions, with one zero.
use anyconsole.Base.{ℕ, zero, suc, ◌+◌, ◌-◌, ◌*◌, ◌/◌, ◌≡◌, refl, arith, Bool, if◌then◌else◌}
use anyconsole.Base.Int.{ℤ, pos, negsuc, pos_part, neg_part, ◌+ℤ◌, ◌-ℤ◌, ◌*ℤ◌, ltb_ℤ, is_nonzero}
use anyconsole.Padd.Floats.{Floats, IsIeee}

-- num / (den + 1)
pub record Fraction : Type 0 where
  pub num : ℤ
  pub den : ℕ

abbrev fraction : ℤ → ℕ → Fraction
fraction n d = record { num = n; den = if is_nonzero n then d else 0 }

abbrev int : ℤ → Fraction
int n = record { num = n; den = 0 }

abbrev sized : ℕ → ℤ → ℤ
sized d n = n *ℤ pos (suc d)

abbrev plus : Fraction → Fraction → Fraction
plus a b =
    if is_nonzero a.num
    then fraction (sized b.den a.num +ℤ sized a.den b.num) (suc a.den * suc b.den - 1)
    else b

abbrev times : Fraction → Fraction → Fraction
times a b =
    if is_nonzero a.num
    then (if is_nonzero b.num
        then fraction (a.num *ℤ b.num) (suc a.den * suc b.den - 1)
        else int (pos 0))
    else int (pos 0)

abbrev minus : Fraction → Fraction
minus a = fraction (pos 0 -ℤ a.num) a.den

-- 1 / b, and 0 for 0.
abbrev inverse : Fraction → Fraction
inverse b =
    if is_nonzero b.num
    then (if ltb_ℤ (pos 0) b.num
        then fraction (pos (suc b.den)) (pos_part b.num - 1)
        else fraction (negsuc b.den) (neg_part b.num - 1))
    else int (pos 0)

abbrev below : Fraction → Fraction → Bool
below a b = ltb_ℤ (sized b.den a.num) (sized a.den b.num)

abbrev magnitude : Fraction → Fraction
magnitude a = if ltb_ℤ a.num (pos 0) then minus a else a

abbrev signed : ℤ → ℕ → ℤ
signed n m = if ltb_ℤ n (pos 0) then pos 0 -ℤ pos m else pos m

abbrev size : ℤ → ℕ
size n = pos_part n + neg_part n

abbrev cut : Fraction → ℤ
cut a = signed a.num (size a.num / suc a.den)

abbrev rounded : Fraction → ℤ
rounded a = signed a.num ((2 * size a.num + suc a.den) / (2 * suc a.den))

instance pub fractions : Floats
fractions = record {
  Double = Fraction;
  of_int = int;
  add = plus;
  sub = λ a b. plus a (minus b);
  mul = times;
  div = λ a b. times a (inverse b);
  neg = minus;
  fmin = λ a b. if below b a then b else a;
  fmax = λ a b. if below a b then b else a;
  fabs = magnitude;
  trunc = λ a. int (cut a);
  lround = rounded;
  to_int = cut;
  nonzero = λ a. is_nonzero a.num;
}

abbrev IsZeroFraction : Fraction → Type 0
IsZeroFraction z = z ≡ int (pos 0)

once : (n : ℤ) → pos 1 *ℤ n ≡ n
unfolding ◌*ℤ◌
once n = ground arith

one_times : (n : ℤ) → times (int (pos 1)) (int n) ≡ int n
unfolding ◌*ℤ◌
one_times (pos zero) = refl
one_times (pos (suc n)) = ground (arith, once (pos (suc n)))
one_times (negsuc n) = ground (arith, once (negsuc n))

pub fractions-IsIeee : IsIeee fractions
unfolding fractions ◌*ℤ◌ ◌+ℤ◌ ◌-ℤ◌
fractions-IsIeee = record {
  IsZero = IsZeroFraction;
  zero_int = refl;
  mul_zero = λ n z e. rw e (ground arith);
  zero_mul = λ n z e. rw e refl;
  zero_div = λ n z e. rw e refl;
  fabs_zero = λ z e. rw e refl;
  fmax_zero = λ z e. rw e refl;
  fmax_below = λ z e. rw e refl;
  fmin_above = λ z e. rw e refl;
  fmin_zero = λ z e. rw e refl;
  zero_add = λ n z e. rw e refl;
  one_mul = λ n. one_times n;
  lround_zero = λ z e. rw e refl;
  lround_half = refl;
}
