-- ===== src/Padd/Floats.antt =====
-- The C `double` and the library calls that guest/padd.c makes on it (math.h). They are not code of
-- the repository: a parameter of the model, with the laws that the theorems need.
use anyconsole.Base.{ℕ, suc, Bool, ◌≡◌}
use anyconsole.Base.Int.{ℤ, pos, negsuc}

pub record Floats : Type 1 where
  pub Double : Type 0
  pub of_int : ℤ → Double
  pub add : Double → Double → Double
  pub sub : Double → Double → Double
  pub mul : Double → Double → Double
  pub div : Double → Double → Double
  pub neg : Double → Double
  pub fmin : Double → Double → Double
  pub fmax : Double → Double → Double
  pub fabs : Double → Double
  pub trunc : Double → Double
  pub lround : Double → ℤ
  pub to_int : Double → ℤ
  pub nonzero : Double → Bool

-- IEEE 754 at the values that a control at rest gives: `IsZero` is 0.0 or -0.0.
pub record IsIeee (F : Floats) : Type 1 where
  pub IsZero : F.Double → Type 0
  pub zero_int : IsZero (F.of_int (pos 0))
  pub mul_zero : (n : ℤ) (z : F.Double) → IsZero z → IsZero (F.mul (F.of_int n) z)
  pub zero_mul : (n : ℤ) (z : F.Double) → IsZero z → IsZero (F.mul z (F.of_int n))
  pub zero_div : (n : ℕ) (z : F.Double) → IsZero z → IsZero (F.div z (F.of_int (pos (suc n))))
  pub fabs_zero : (z : F.Double) → IsZero z → IsZero (F.fabs z)
  pub fmax_zero : (z : F.Double) → IsZero z → IsZero (F.fmax (F.of_int (pos 0)) z)
  pub fmax_below : (z : F.Double) → IsZero z → IsZero (F.fmax (F.of_int (negsuc 0)) z)
  pub fmin_above : (z : F.Double) → IsZero z → IsZero (F.fmin (F.of_int (pos 1)) z)
  pub fmin_zero : (z : F.Double) → IsZero z → IsZero (F.fmin z (F.of_int (pos 1)))
  pub zero_add : (n : ℤ) (z : F.Double) → IsZero z → F.add z (F.of_int n) ≡ F.of_int n
  pub one_mul : (n : ℤ) → F.mul (F.of_int (pos 1)) (F.of_int n) ≡ F.of_int n
  pub lround_zero : (z : F.Double) → IsZero z → F.lround z ≡ pos 0
  pub lround_half : F.lround (F.div (F.of_int (pos 255)) (F.of_int (pos 2))) ≡ pos 128
