-- ===== src/Overlay/Windows/Opening.antt =====
-- A window that opens or closes does to the table what it does to the map: on_toplevel,
-- on_toplevel_closed.
use anyconsole.Base.{
  ℕ, suc, ◌+◌, ◌-◌, ◌<◌, ◌≡◌, refl, sym, ◌∙◌, ap, subst, inl, inr, true, false, none, some, ◌==◌,
  ==_iff, arith, Bool-cases, Option-cases, if_true, if_false,
}
use mathlib.Core.Option.{some-injective, some-ne-none}
use anyconsole.Base.Counts.{write}
use anyconsole.Overlay.Windows.{
  Window, Windows, windows_max, new_window, of_handle, on_toplevel, drop_window, on_toplevel_closed,
}
use anyconsole.Overlay.Windows.Registry.{
  Registry, add_entry, is_known, open_entry, close_entry, Represents,
}
use anyconsole.Overlay.Windows.Closing.{close_from-none, close_from-found, other_window}

module _ (handle : ℕ) (s : Windows) (r : Registry) (h : Represents s r) where
  -- A window with another handle than one that the map does not have.
  known_handle : (i : ℕ) → i < s.count → r.at handle ≡ none → of_handle handle (s.window i) ≡ false
  known_handle i lt fresh = elim (Bool-cases (of_handle handle (s.window i))) [
    | inl e ↦ absurd (
        some-ne-none _
          (sym (h.listed i lt) ∙ (ap r.at ((==_iff (s.window i).handle handle).0 e) ∙ fresh)))
    | inr e ↦ e
  ]

  written-last :
      (i : ℕ)
      → (s.count == i) ≡ true
      → write s.window s.count (new_window handle) i ≡ new_window handle
  written-last i e = rw e refl

  written-first :
      (i : ℕ) → (s.count == i) ≡ false → write s.window s.count (new_window handle) i ≡ s.window i
  written-first i e = rw e refl

  added-distinct :
      (i k : ℕ)
      → r.at handle ≡ none
      → i < suc s.count
      → k < suc s.count
      → (write s.window s.count (new_window handle) i).handle
        ≡ (write s.window s.count (new_window handle) k).handle
      → i ≡ k
  added-distinct i k fresh lt below e = elim (Bool-cases (s.count == i)) [
    | inl last ↦ elim (Bool-cases (s.count == k)) [
      | inl end ↦ sym ((==_iff _ i).0 last) ∙ (==_iff _ k).0 end
      | inr inner ↦
          let f : (s.window k).handle ≡ handle =
            sym (ap (λ (w : Window). w.handle) (written-first k inner))
            ∙ (sym e ∙ ap (λ (w : Window). w.handle) (written-last i last)) in
          absurd (ground (arith, known_handle k (ground arith) fresh))
    ]
    | inr first ↦ elim (Bool-cases (s.count == k)) [
      | inl end ↦
          let f : (s.window i).handle ≡ handle =
            sym (ap (λ (w : Window). w.handle) (written-first i first))
            ∙ (e ∙ ap (λ (w : Window). w.handle) (written-last k end)) in
          absurd (ground (arith, known_handle i (ground arith) fresh))
      | inr inner ↦ h.distinct i k (ground arith) (ground arith) (
          sym (ap (λ (w : Window). w.handle) (written-first i first))
          ∙ (e ∙ ap (λ (w : Window). w.handle) (written-first k inner)))
    ]
  ]

  added-Represents :
      r.at handle ≡ none
      → Represents
          (record s { window = write s.window s.count (new_window handle); count = suc s.count })
          (add_entry handle r)
  added-Represents fresh =
      let own : (handle == handle) ≡ true = ground arith in
      let end : (s.count == s.count) ≡ true = ground arith in
      record {
        sized = ap suc h.sized;
        listed = λ i lt. elim (Bool-cases (s.count == i)) [
          | inl last ↦ rw last (rw own refl)
          | inr first ↦
              rw first
                (if_false _ _ (known_handle i (ground arith) fresh) ∙ h.listed i (ground arith))
        ];
        only = λ k w e. elim (Bool-cases (k == handle)) [
          | inl same ↦
              let p : new_window handle ≡ w = some-injective _ _ (sym (if_true _ _ same) ∙ e) in
              (
                s.count,
                omega arith,
                written-last s.count end ∙ p,
                sym (ap (λ (u : Window). u.handle) p) ∙ sym ((==_iff k handle).0 same),
              )
          | inr other ↦
              let (i, lt, g, q) = h.only k w (sym (if_false _ _ other) ∙ e) in
              let inner : (s.count == i) ≡ false = ground arith in
              (i, omega arith, written-first i inner ∙ g, q)
        ];
        distinct = λ i k lt below e. added-distinct i k fresh lt below e;
      }

  -- A handle that is not in the table yet.
  pub on_toplevel-Represents :
      r.at handle ≡ none → Represents (on_toplevel handle s) (open_entry handle r)
  unfolding on_toplevel open_entry
  on_toplevel-Represents fresh = elim (Bool-cases (s.count == windows_max)) [
    | inl all ↦
        let full : (r.size == windows_max) ≡ true =
          ap (λ n. n == windows_max) (sym h.sized) ∙ all in
        subst (Represents _) (sym (if_true _ _ full))
          (subst (λ t. Represents t r) (sym (if_true _ _ all)) h)
    | inr room ↦
        let space : (r.size == windows_max) ≡ false =
          ap (λ n. n == windows_max) (sym h.sized) ∙ room in
        subst (Represents _) (sym (if_false _ _ space)) (
          subst (λ t. Represents t (add_entry handle r)) (sym (if_false _ _ room))
            (added-Represents fresh))
  ]

  gone-Represents : r.at handle ≡ none → Represents s (close_entry handle r)
  unfolding close_entry
  gone-Represents gone = record {
    sized = h.sized ∙ sym (if_false _ _ (ap is_known gone));
    listed = λ i lt. if_false _ _ (known_handle i lt gone) ∙ h.listed i lt;
    only = λ k w e. elim (Bool-cases (k == handle)) [
      | inl same ↦ absurd (some-ne-none _ (sym e ∙ if_true _ _ same))
      | inr other ↦ h.only k w (sym (if_false _ _ other) ∙ e)
    ];
    distinct = h.distinct;
  }

  module _ (i : ℕ) (lt : i < s.count) (here : (s.window i).handle ≡ handle) where
    moved-here :
        (k : ℕ)
        → (i == k) ≡ true
        → write s.window i (s.window (s.count - 1)) k ≡ s.window (s.count - 1)
    moved-here k e = rw e refl

    moved-away :
        (k : ℕ) → (i == k) ≡ false → write s.window i (s.window (s.count - 1)) k ≡ s.window k
    moved-away k e = rw e refl

    dropped-distinct :
        (a b : ℕ)
        → a < s.count - 1
        → b < s.count - 1
        → (write s.window i (s.window (s.count - 1)) a).handle
          ≡ (write s.window i (s.window (s.count - 1)) b).handle
        → a ≡ b
    dropped-distinct a b low high e = elim (Bool-cases (i == a)) [
      | inl same ↦ elim (Bool-cases (i == b)) [
        | inl both ↦ sym ((==_iff i a).0 same) ∙ (==_iff i b).0 both
        | inr other ↦
            let f : s.count - 1 ≡ b = h.distinct (s.count - 1) b (omega arith) (omega arith) (
              sym (ap (λ (w : Window). w.handle) (moved-here a same))
              ∙ (e ∙ ap (λ (w : Window). w.handle) (moved-away b other))) in
            absurd (omega arith)
      ]
      | inr off ↦ elim (Bool-cases (i == b)) [
        | inl same ↦
            let f : a ≡ s.count - 1 = h.distinct a (s.count - 1) (omega arith) (omega arith) (
              sym (ap (λ (w : Window). w.handle) (moved-away a off))
              ∙ (e ∙ ap (λ (w : Window). w.handle) (moved-here b same))) in
            absurd (omega arith)
        | inr other ↦ h.distinct a b (omega arith) (omega arith) (
            sym (ap (λ (w : Window). w.handle) (moved-away a off))
            ∙ (e ∙ ap (λ (w : Window). w.handle) (moved-away b other)))
      ]
    ]

    dropped-only :
        (k : ℕ) (w : Window)
        → (k == handle) ≡ false
        → r.at k ≡ some w
        → (j : ℕ) × (j < s.count - 1)
          × (write s.window i (s.window (s.count - 1)) j ≡ w)
          × (w.handle ≡ k)
    dropped-only k w other e =
        let (j, below, g, q) = h.only k w e in
        let apart : (i == j) ≡ false = elim (Bool-cases (i == j)) [
          | inl same ↦ absurd (
              let f : k ≡ handle =
                sym q
                ∙ (ap (λ (u : Window). u.handle) (sym g)
                    ∙ (ap (λ n. (s.window n).handle) (sym ((==_iff i j).0 same)) ∙ here)) in
              ground arith)
          | inr apart ↦ apart
        ] in
        elim (Bool-cases (j == s.count - 1)) [
          | inl last ↦
              let own : (i == i) ≡ true = ground arith in
              (i, ground arith, moved-here i own ∙ (ap s.window (sym ((==_iff j _).0 last)) ∙ g), q)
          | inr inner ↦ (j, ground arith, moved-away j apart ∙ g, q)
        ]

    dropped-Represents : Represents (drop_window i s) (close_entry handle r)
    unfolding drop_window close_entry
    dropped-Represents =
        let known : is_known (r.at handle) ≡ true =
          ap (λ k. is_known (r.at k)) (sym here) ∙ ap is_known (h.listed i lt) in
        record {
          sized = ap (λ n. n - 1) h.sized ∙ sym (if_true _ _ known);
          listed = λ k low. elim (Bool-cases (i == k)) [
            | inl same ↦ rw same (
                if_false _ _ (
                  other_window handle (s.count - 1) i s (omega arith) lt here h.distinct
                    (ground arith))
                ∙ h.listed (s.count - 1) (omega arith))
            | inr other ↦ rw other (
                if_false _ _
                  (other_window handle k i s (omega arith) lt here h.distinct (ground arith))
                ∙ h.listed k (omega arith))
          ];
          only = λ k w e. elim (Bool-cases (k == handle)) [
            | inl same ↦ absurd (some-ne-none _ (sym e ∙ if_true _ _ same))
            | inr other ↦ dropped-only k w other (sym (if_false _ _ other) ∙ e)
          ];
          distinct = dropped-distinct;
        }

pub on_toplevel_closed-Represents :
    (handle : ℕ) (s : Windows) (r : Registry)
    → Represents s r
    → Represents (on_toplevel_closed handle s) (close_entry handle r)
unfolding on_toplevel_closed
on_toplevel_closed-Represents handle s r h = elim (Option-cases (r.at handle)) [
  | inl gone ↦
      subst (λ t. Represents t (close_entry handle r))
        (sym (close_from-none handle s.count 0 s (λ k le lt. known_handle handle s r h k lt gone)))
        (gone-Represents handle s r h gone)
  | inr (w, e) ↦
      let (i, lt, f, g) = h.only handle w e in
      let here : (s.window i).handle ≡ handle = ap (λ (u : Window). u.handle) f ∙ g in
      let at : 0 + i ≡ i = omega arith in
      subst (λ t. Represents t (close_entry handle r))
        (sym (
          close_from-found handle i s.count 0 s lt (omega arith)
            (subst (λ k. (s.window k).handle ≡ handle) (sym at) here) h.distinct
          ∙ ap (λ k. drop_window k s) at))
        (dropped-Represents handle s r h i lt here)
]
