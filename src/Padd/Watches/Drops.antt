-- ===== src/Padd/Watches/Drops.antt =====
-- unwatch_pad removes every watch of the pad, and no other one.
use anyconsole.Base.{
  ℕ, zero, suc, ◌+◌, ◌-◌, ◌≤◌, ◌<◌, ◌≡◌, refl, ◌∙◌, sym, ap, Bool, true, false, arith, ◌==◌,
  Bool-cases, inl, inr, ==_iff,
}
use anyconsole.Padd.Watches.{
  Watch, Watches, fixed_sources, is_watch_of, drop, unwatch, unwatch_down, unwatch_pad,
}

-- From the `n`-th entry after the fixed ones on, no watch is of the pad.
pub record IsCleared (source pad n : ℕ) (W : Watches) : Type 0 where
  pub enough : fixed_sources + n ≤ W.count
  pub clear :
      (i : ℕ) → fixed_sources + n ≤ i → i < W.count → is_watch_of source pad (W.entry i) ≡ false

unwatch-IsCleared :
    (source pad n : ℕ) (W : Watches)
    → IsCleared source pad (suc n) W
    → IsCleared source pad n (unwatch (fixed_sources + n) W)
unfolding unwatch drop
unwatch-IsCleared source pad n W c = record {
  enough = ground (arith, c.enough);
  clear = λ i low high. elim (Bool-cases (fixed_sources + n == i)) [
    | inl e ↦ rw e (c.clear (W.count - 1) (ground (arith, c.enough)) (ground (arith, c.enough)))
    | inr e ↦ rw e (c.clear i (ground arith) (ground arith))
  ];
}

keep-IsCleared :
    (source pad n : ℕ) (W : Watches)
    → is_watch_of source pad (W.entry (fixed_sources + n)) ≡ false
    → IsCleared source pad (suc n) W
    → IsCleared source pad n W
keep-IsCleared source pad n W e c = record {
  enough = ground (arith, c.enough);
  clear = λ i low high. elim (Bool-cases (fixed_sources + n == i)) [
    | inl same ↦ ap (λ k. is_watch_of source pad (W.entry k)) (sym ((==_iff _ i).0 same)) ∙ e
    | inr other ↦ c.clear i (ground arith) high
  ];
}

unwatch_down-IsCleared :
    (source pad n : ℕ) (W : Watches)
    → IsCleared source pad n W
    → IsCleared source pad 0 (unwatch_down source pad n W)
unfolding unwatch_down
unwatch_down-IsCleared source pad zero W c = c
unwatch_down-IsCleared source pad (suc n) W c =
    elim (Bool-cases (is_watch_of source pad (W.entry (fixed_sources + n)))) [
      | inl e ↦ rw e (unwatch_down-IsCleared source pad n _ (unwatch-IsCleared source pad n W c))
      | inr e ↦ rw e (unwatch_down-IsCleared source pad n W (keep-IsCleared source pad n W e c))
    ]

-- When the fixed sources are watched, unwatch_pad leaves no watch of the pad for that source among the
-- other entries.
pub unwatch_pad-IsCleared :
    (source pad : ℕ) (W : Watches)
    → fixed_sources ≤ W.count
    → IsCleared source pad 0 (unwatch_pad source pad W)
unfolding unwatch_pad
unwatch_pad-IsCleared source pad W le =
    unwatch_down-IsCleared source pad (W.count - fixed_sources) W
      (record { enough = omega arith; clear = λ i low high. absurd (omega arith) })

-- What a watch is about, whatever has been polled.
abbrev pub unpolled : Watch → Watch
unpolled w = record w { pending = 0 }

-- Every entry of `W` that is not of the pad is still an entry of `V`, and a fixed one at its place.
pub record IsKept (source pad : ℕ) (W V : Watches) : Type 0 where
  pub fixed : (i : ℕ) → i < fixed_sources → V.entry i ≡ W.entry i
  pub others :
      (i : ℕ)
      → fixed_sources ≤ i
      → i < W.count
      → is_watch_of source pad (W.entry i) ≡ false
      → (k : ℕ) × (fixed_sources ≤ k)
        × (k < V.count)
        × (unpolled (V.entry k) ≡ unpolled (W.entry i))

==-refl : (i : ℕ) → (i == i) ≡ true
==-refl i = ground arith

apart : (f : ℕ → Bool) (i k : ℕ) → f i ≡ true → f k ≡ false → (i == k) ≡ false
apart f i k there away = elim (Bool-cases (i == k)) [
  | inl same ↦ cc (ap f ((==_iff i k).0 same))
  | inr other ↦ other
]

unwatch-IsKept :
    (source pad n : ℕ) (W : Watches)
    → fixed_sources + n < W.count
    → is_watch_of source pad (W.entry (fixed_sources + n)) ≡ true
    → IsKept source pad W (unwatch (fixed_sources + n) W)
unfolding unwatch drop
unwatch-IsKept source pad n W lt e = record {
  fixed = λ i low. ground arith;
  others = λ i low high other.
      let ne = apart (λ k. is_watch_of source pad (W.entry k)) (fixed_sources + n) i e other in
      elim (Bool-cases (W.count - 1 == i)) [
        | inl last ↦
            (let here = (==_iff (W.count - 1) i).0 last in
              (
                fixed_sources + n,
                omega arith,
                ground arith,
                rw (==-refl (fixed_sources + n)) (ap (λ k. unpolled (W.entry k)) here),
              ))
        | inr inner ↦ (i, low, ground arith, rw ne refl)
      ];
}

IsKept-refl : (source pad : ℕ) (W : Watches) → IsKept source pad W W
IsKept-refl source pad W = record {
  fixed = λ i low. refl;
  others = λ i low high other. (i, low, high, refl);
}

IsKept-trans :
    {source pad : ℕ} {W V U : Watches}
    → IsKept source pad W V
    → IsKept source pad V U
    → IsKept source pad W U
IsKept-trans {source} {pad} {V} a b = record {
  fixed = λ i low. b.fixed i low ∙ a.fixed i low;
  others = λ i low high other.
      let (k, from, to, same) = a.others i low high other in
      let (m, start, end, alike) =
        b.others k from to (ap (λ w. is_watch_of source pad w) same ∙ other) in
      (m, start, end, alike ∙ same);
}

unwatch_down-IsKept :
    (source pad n : ℕ) (W : Watches)
    → fixed_sources + n ≤ W.count
    → IsKept source pad W (unwatch_down source pad n W)
unfolding unwatch_down
unwatch_down-IsKept source pad zero W le = IsKept-refl source pad W
unwatch_down-IsKept source pad (suc n) W le =
    elim (Bool-cases (is_watch_of source pad (W.entry (fixed_sources + n)))) [
      | inl e ↦ rw e (
          IsKept-trans (unwatch-IsKept source pad n W (omega arith) e)
            (unwatch_down-IsKept source pad n _ (unfold unwatch drop in omega arith)))
      | inr e ↦ rw e (unwatch_down-IsKept source pad n W (omega arith))
    ]

-- When the fixed sources are watched, unwatch_pad leaves each of them at its place and every watch of
-- another pad or another source in the table.
pub unwatch_pad-IsKept :
    (source pad : ℕ) (W : Watches)
    → fixed_sources ≤ W.count
    → IsKept source pad W (unwatch_pad source pad W)
unfolding unwatch_pad
unwatch_pad-IsKept source pad W le =
    unwatch_down-IsKept source pad (W.count - fixed_sources) W (omega arith)
