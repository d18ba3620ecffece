-- ===== src/Overlay/Windows/Closing.antt =====
-- Of a table whose handles differ, the loop of on_toplevel_closed drops the window with the handle.
use anyconsole.Base.{
  ℕ, zero, suc, ◌+◌, ◌-◌, ◌≤◌, ◌<◌, ◌≡◌, refl, sym, ◌∙◌, ap, subst, inl, inr, true, false, ◌==◌,
  ==_iff, ltb, arith, Bool-cases, if_true, if_false,
}
use anyconsole.Overlay.Windows.{Windows, of_handle, drop_window, close_from}

-- No window from `i` on has the handle.
abbrev pub NoneFrom : ℕ → ℕ → Windows → Type 0
NoneFrom handle i s = (k : ℕ) → i ≤ k → k < s.count → of_handle handle (s.window k) ≡ false

abbrev pub AllDiffer : Windows → Type 0
AllDiffer s =
    (i k : ℕ) → i < s.count → k < s.count → (s.window i).handle ≡ (s.window k).handle → i ≡ k

pub close_from-none :
    (handle rounds i : ℕ) (s : Windows) → NoneFrom handle i s → close_from handle rounds i s ≡ s
unfolding close_from
close_from-none handle zero i s h = refl
close_from-none handle (suc rounds) i s h = elim (Bool-cases (ltb i s.count)) [
  | inl lt ↦
      if_true _ _ lt
      ∙ (if_false _ _ (h i (omega arith) (ground arith))
          ∙ close_from-none handle rounds (suc i) s (λ k le. h k (omega arith)))
  | inr ge ↦ if_false _ _ ge
]

pub other_window :
    (handle i k : ℕ) (s : Windows)
    → i < s.count
    → k < s.count
    → (s.window k).handle ≡ handle
    → AllDiffer s
    → (i == k) ≡ false
    → of_handle handle (s.window i) ≡ false
other_window handle i k s lt below here differ other =
    elim (Bool-cases (of_handle handle (s.window i))) [
      | inl e ↦ absurd (
          let same : i ≡ k = differ i k lt below ((==_iff _ handle).0 e ∙ sym here) in ground arith)
      | inr e ↦ e
    ]

drop_window-NoneFrom :
    (handle i : ℕ) (s : Windows)
    → i < s.count
    → (s.window i).handle ≡ handle
    → AllDiffer s
    → NoneFrom handle i (drop_window i s)
unfolding drop_window
drop_window-NoneFrom handle i s lt here differ k le below = elim (Bool-cases (i == k)) [
  | inl same ↦
      rw same (other_window handle (s.count - 1) i s (omega arith) lt here differ (ground arith))
  | inr other ↦ rw other (other_window handle k i s (omega arith) lt here differ (ground arith))
]

-- The first window with the handle is `d` further on.
pub close_from-found :
    (handle d rounds i : ℕ) (s : Windows)
    → d < rounds
    → i + d < s.count
    → (s.window (i + d)).handle ≡ handle
    → AllDiffer s
    → close_from handle rounds i s ≡ drop_window (i + d) s
unfolding close_from
close_from-found handle d zero i s lt below here differ = absurd (omega arith)
close_from-found handle zero (suc rounds) i s lt below here differ =
    let z : i + 0 ≡ i = omega arith in
    let at : (s.window i).handle ≡ handle = subst (λ k. (s.window k).handle ≡ handle) z here in
    let low : ltb i s.count ≡ true = ground arith in
    if_true _ _ low
    ∙ (if_true _ _ ((==_iff _ handle).1 at)
        ∙ (close_from-none handle rounds i (drop_window i s)
              (drop_window-NoneFrom handle i s (omega arith) at differ)
            ∙ ap (λ k. drop_window k s) (sym z)))
close_from-found handle (suc d) (suc rounds) i s lt below here differ =
    let e : i + suc d ≡ suc i + d = omega arith in
    let low : ltb i s.count ≡ true = ground arith in
    let other : of_handle handle (s.window i) ≡ false =
      other_window handle i (i + suc d) s (omega arith) below here differ (ground arith) in
    if_true _ _ low
    ∙ (if_false _ _ other
        ∙ (close_from-found handle d rounds (suc i) s (omega arith) (omega arith)
              (subst (λ k. (s.window k).handle ≡ handle) e here) differ
            ∙ ap (λ k. drop_window k s) (sym e)))
