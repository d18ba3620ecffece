-- ===== src/Scene/Tree/Counts.antt =====
-- How often a node stands in a list of children that is written to: remove_first and insert_at.
use anyconsole.Base.{
  ℕ, zero, suc, ◌+◌, ◌-◌, ◌≤◌, ◌≡◌, refl, inl, inr, List, [], ◌∷◌, length, get_elem?, some, ◌==◌,
  arith, Bool-cases,
}
use anyconsole.Base.Counts.{one_if}
use anyconsole.Scene.Tree.{remove_first, insert_at}

abbrev pub count : ℕ → List ℕ → ℕ
count c [] = 0
count c (x ∷ xs) = one_if (x == c) + count c xs

pub count-remove_first :
    (d c : ℕ) (xs : List ℕ) → count d (remove_first c xs) ≡ count d xs - one_if (c == d)
unfolding remove_first
count-remove_first d c [] = ground arith
count-remove_first d c (x ∷ xs) = elim (Bool-cases (x == c)) [
  | inl e ↦ rw e (ground arith)
  | inr e ↦ rw e (ground (arith, count-remove_first d c xs))
]

pub count-insert_at :
    (d index c : ℕ) (xs : List ℕ) → count d (insert_at index c xs) ≡ one_if (c == d) + count d xs
unfolding insert_at
count-insert_at d index c [] = refl
count-insert_at d zero c (x ∷ xs) = refl
count-insert_at d (suc index) c (x ∷ xs) = omega (arith, count-insert_at d index c xs)

pub get-insert_at :
    (index c : ℕ) (xs : List ℕ)
    → index ≤ length xs
    → get_elem? (insert_at index c xs) index ≡ some c
unfolding insert_at
get-insert_at zero c [] le = refl
get-insert_at (suc index) c [] le = absurd (omega arith)
get-insert_at zero c (x ∷ xs) le = refl
get-insert_at (suc index) c (x ∷ xs) le = get-insert_at index c xs (omega arith)
