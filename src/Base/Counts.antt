-- ===== src/Base/Counts.antt =====
-- Arrays as functions: a cell that is written, and how many cells pass a test.
use Prim.Native.Nat.{ℕ, zero, suc, ◌+◌, ◌-◌, ◌≤◌, ◌<◌}
use mathlib.Core.Path.{◌≡◌, refl, ap, subst}
use mathlib.Core.Logic.{inl, inr}
use mathlib.Core.Bool.{Bool, true, false}
use native.Mathlib.Omega.{arith}
use anyconsole.Base.Tests.{◌==◌, ==_iff, if◌then◌else◌, Bool-cases}

abbrev pub write {ℓ} : {A : Type ℓ} → (ℕ → A) → ℕ → A → ℕ → A
write f i a j = if i == j then a else f j

abbrev pub one_if : Bool → ℕ
one_if true = 1
one_if false = 0

module _ {A : Type 0} (test : A → Bool) where
  abbrev pub count_below : ℕ → (ℕ → A) → ℕ
  count_below zero f = 0
  count_below (suc n) f = one_if (test (f n)) + count_below n f

  pub count-write_above :
      (n i : ℕ) (f : ℕ → A) (v : A) → n ≤ i → count_below n (write f i v) ≡ count_below n f
  count-write_above zero i f v le = refl
  count-write_above (suc n) i f v le =
      let other : (i == n) ≡ false = ground arith in
      rw other (omega (arith, count-write_above n i f v))

  pub count-write :
      (n i : ℕ) (f : ℕ → A) (v : A)
      → i < n
      → count_below n (write f i v) + one_if (test (f i)) ≡ count_below n f + one_if (test v)
  count-write zero i f v lt = absurd (omega arith)
  count-write (suc n) i f v lt = elim (Bool-cases (i == n)) [
    | inl e ↦ rw e (
        let above = count-write_above n i f v (ground arith) in
        let same : one_if (test (f i)) ≡ one_if (test (f n)) =
          ap (λ k. one_if (test (f k))) ((==_iff i n).0 e) in
        omega arith)
    | inr e ↦ rw e (omega (arith, count-write n i f v (ground arith)))
  ]

  last :
      (n i : ℕ) (f : ℕ → A)
      → i < suc n
      → count_below n (write f i (f n)) + one_if (test (f i)) ≡ count_below (suc n) f
  last n i f lt = elim (Bool-cases (i == n)) [
    | inl e ↦
        let above = count-write_above n i f (f n) (ground arith) in
        let same : one_if (test (f i)) ≡ one_if (test (f n)) =
          ap (λ k. one_if (test (f k))) ((==_iff i n).0 e) in
        omega arith
    | inr e ↦ omega (arith, count-write n i f (f n) (ground arith))
  ]

  -- The last cell in the place of another one, which goes.
  pub count-swap_remove :
      (n i : ℕ) (f : ℕ → A)
      → i < n
      → count_below (n - 1) (write f i (f (n - 1))) + one_if (test (f i)) ≡ count_below n f
  count-swap_remove zero i f lt = absurd (omega arith)
  count-swap_remove (suc n) i f lt =
      subst (λ m. count_below m (write f i (f m)) + one_if (test (f i)) ≡ count_below (suc n) f)
        (omega arith) (last n i f lt)
