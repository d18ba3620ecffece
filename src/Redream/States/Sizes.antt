-- ===== src/Redream/States/Sizes.antt =====
-- A number is read back from its bytes.
use anyconsole.Base.{ℕ, zero, suc, ◌*◌, ◌/◌, ◌<◌, ◌≡◌, refl, length, arith}
use anyconsole.Redream.States.{to_bytes, of_bytes}

-- 256 to the power of `k`
abbrev pub span : ℕ → ℕ
span zero = 1
span (suc k) = 256 * span k

pub of_bytes-to_bytes : (k n : ℕ) → n < span k → of_bytes (to_bytes k n) ≡ n
unfolding of_bytes to_bytes
of_bytes-to_bytes zero n lt = omega arith
of_bytes-to_bytes (suc k) n lt = omega (arith, of_bytes-to_bytes k (n / 256) (omega arith))

pub length-to_bytes : (k n : ℕ) → length (to_bytes k n) ≡ k
unfolding to_bytes
length-to_bytes zero n = refl
length-to_bytes (suc k) n = omega (arith, length-to_bytes k (n / 256))
