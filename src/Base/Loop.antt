-- ===== src/Base/Loop.antt =====
-- Counted loops.
use Prim.Native.Nat.{ℕ, zero, suc, ◌≤◌, ◌<◌}
use native.Mathlib.Omega.{arith}
use mathlib.Core.Path.{◌≡◌, refl, ap, ◌∙◌}
use native.Mathlib.Omega.{arith}

-- for (i = 0; i < n; i++) s = body i s, in the order of the source: the last round is outermost.
unfoldable pub for_below {ℓ} : {S : Type ℓ} → ℕ → (ℕ → S → S) → S → S
for_below zero body s = s
for_below (suc n) body s = body n (for_below n body s)

-- What a round of a loop keeps, the loop keeps.
pub for_below_inv {ℓ κ} :
    {S : Type ℓ} (P : ℕ → S → Type κ) (body : ℕ → S → S)
    → ((i : ℕ) (s : S) → P i s → P (suc i) (body i s))
    → (n : ℕ) (s : S) → P 0 s
    → P n (for_below n body s)
unfolding for_below
for_below_inv P body keep zero s h = h
for_below_inv P body keep (suc n) s h = keep n _ (for_below_inv P body keep n s h)

pub for_below_congr {ℓ} :
    {S : Type ℓ} (body body' : ℕ → S → S)
    → ((i : ℕ) (s : S) → body i s ≡ body' i s)
    → (n : ℕ) (s : S) → for_below n body s ≡ for_below n body' s
unfolding for_below
for_below_congr body body' e zero s = refl
for_below_congr body body' e (suc n) s = e n _ ∙ ap (body' n) (for_below_congr body body' e n s)

-- The same where a round may use that its index is below the bound.
pub for_below_inv_bounded {ℓ κ} :
    {S : Type ℓ} (P : ℕ → S → Type κ) (body : ℕ → S → S) (n : ℕ)
    → ((i : ℕ) (s : S) → i < n → P i s → P (suc i) (body i s))
    → (m : ℕ) (s : S) → m ≤ n
    → P 0 s
    → P m (for_below m body s)
unfolding for_below
for_below_inv_bounded P body n keep zero s le h = h
for_below_inv_bounded P body n keep (suc m) s le h =
    keep m _ (omega arith) (for_below_inv_bounded P body n keep m s (omega arith) h)
