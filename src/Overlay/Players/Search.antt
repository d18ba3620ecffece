-- ===== src/Overlay/Players/Search.antt =====
-- What a search finds: the first index that passes.
use anyconsole.Base.{
  ℕ, zero, suc, ◌+◌, ◌≤◌, ◌<◌, ◌≡◌, refl, ◌∙◌, sym, ap, Bool, true, false, arith, ◌==◌, ==_iff,
  none, some, Bool-cases, inl, inr, ◌⊎◌,
}
use anyconsole.Overlay.Players.{first_from}

pub record IsFound (test : ℕ → Bool) (n i k : ℕ) : Type 0 where
  pub low : i ≤ k
  pub high : k < i + n
  pub passes : test k ≡ true

pub first_from-cases :
    (test : ℕ → Bool) (n i : ℕ)
    → ((k : ℕ) × (first_from test n i ≡ some k) × IsFound test n i k)
      ⊎ ((first_from test n i ≡ none) × ((k : ℕ) → i ≤ k → k < i + n → test k ≡ false))
unfolding first_from
first_from-cases test zero i = inr (refl, λ k low high. absurd (omega arith))
first_from-cases test (suc n) i = elim (Bool-cases (test i)) [
  | inl e ↦ inl (i, rw e refl, record { low = omega arith; high = omega arith; passes = e })
  | inr e ↦ elim (first_from-cases test n (suc i)) [
    | inl (k, at, f) ↦ inl (
      k,
      rw e at,
      record { low = omega (arith, f.low); high = omega (arith, f.high); passes = f.passes },
    )
    | inr (at, missing) ↦ inr (
      rw e at,
      λ k low high. elim (Bool-cases (i == k)) [
        | inl same ↦ ap test (sym ((==_iff i k).0 same)) ∙ e
        | inr other ↦ missing k (ground arith) (omega arith)
      ],
    )
  ]
]
