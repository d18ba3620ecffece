-- ===== src/Scene/Tree/Consistent.antt =====
-- The tree of nodes stays one: a node stands once among the children of its parent, and among those
-- of no other.
use anyconsole.Base.{
  ℕ, ◌+◌, ◌-◌, ◌≡◌, refl, ◌∙◌, ap, subst, inl, inr, true, ◌&&◌, Option, none, some, List, length,
  get_elem?, ltb, ◌==◌, ==_iff, if◌then◌else◌, arith, Bool-cases,
}
use anyconsole.Scene.Tree.{
  Yoga, Scene, is_node, remove_first, insert_at, detach_from, detach, attach, scene_insert,
}
use anyconsole.Base.Counts.{write, one_if}
use anyconsole.Scene.Tree.Counts.{count, count-remove_first, count-insert_at, get-insert_at}

-- The index where a child goes is at most the number of the children.
abbrev pub clamped : ℕ → ℕ → ℕ
clamped count index = if ltb count index then count else index

module _ ⦃Y : Yoga⦄ where
  pub record IsTree (s : Scene) : Type 0 where
    pub once : (p c : ℕ) → count c (s.children p) ≡ one_if (is_node (s.parent c) p)

  above-count :
      (s : Scene) (p child q : ℕ)
      → s.parent child ≡ some p
      → IsTree s
      → count child (s.children q) ≡ one_if (p == q)
  above-count s p child q above h = h.once q child ∙ ap (λ o. one_if (is_node o q)) above

  removed-count :
      (f : ℕ → List ℕ) (p child q c : ℕ)
      → count c (write f p (remove_first child (f p)) q)
        ≡ count c (f q) - one_if (p == q && child == c)
  removed-count f p child q c = elim (Bool-cases (p == q)) [
    | inl e ↦ rw e (
        subst (λ n. count c (remove_first child (f p)) ≡ count c (f n) - one_if (child == c))
          ((==_iff p q).0 e) (count-remove_first c child (f p)))
    | inr e ↦ rw e (omega arith)
  ]

  removed-once :
      (s : Scene) (p child q c : ℕ)
      → s.parent child ≡ some p
      → IsTree s
      → count c (write s.children p (remove_first child (s.children p)) q)
        ≡ one_if (is_node (write s.parent child none c) q)
  removed-once s p child q c above h = elim (Bool-cases (child == c)) [
    | inl e ↦ rw e (
        let gone = removed-count s.children p child q c in
        let was = above-count s p child q above h in
        let same : count c (s.children q) ≡ one_if (p == q) =
          subst (λ n. count n (s.children q) ≡ one_if (p == q)) ((==_iff child c).0 e) was in
        ground arith)
    | inr e ↦
        rw e
          (let gone = removed-count s.children p child q c in let was = h.once q c in ground arith)
  ]

  detach_from-IsTree :
      (s : Scene) (o : Option ℕ) (child : ℕ)
      → s.parent child ≡ o
      → IsTree s
      → IsTree (detach_from o child s) × ((detach_from o child s).parent child ≡ none)
  unfolding detach_from
  detach_from-IsTree s none child above h = (h, above)
  detach_from-IsTree s (some p) child above h =
      (record { once = λ q c. removed-once s p child q c above h }, ground arith)

  pub detach-IsTree :
      (s : Scene) (child : ℕ)
      → IsTree s
      → IsTree (detach child s) × ((detach child s).parent child ≡ none)
  unfolding detach
  detach-IsTree s child h = detach_from-IsTree s (s.parent child) child refl h

  inserted-count :
      (f : ℕ → List ℕ) (p at child q c : ℕ)
      → count c (write f p (insert_at at child (f p)) q)
        ≡ one_if (p == q && child == c) + count c (f q)
  inserted-count f p at child q c = elim (Bool-cases (p == q)) [
    | inl e ↦ rw e (
        subst (λ n. count c (insert_at at child (f p)) ≡ one_if (child == c) + count c (f n))
          ((==_iff p q).0 e) (count-insert_at c at child (f p)))
    | inr e ↦ rw e (omega arith)
  ]

  attach-IsTree :
      (s : Scene) (parent child index : ℕ)
      → s.parent child ≡ none
      → IsTree s
      → IsTree (attach parent child index s)
  unfolding attach
  attach-IsTree s parent child index free h = record {
    once = λ q c. elim (Bool-cases (child == c)) [
      | inl e ↦ rw e (
          let put = inserted-count s.children parent at child q c in
          let was : count c (s.children q) ≡ 0 =
            subst (λ n. count n (s.children q) ≡ 0) ((==_iff child c).0 e)
              (h.once q child ∙ ap (λ o. one_if (is_node o q)) free) in
          ground arith)
      | inr e ↦ rw e (
          let put = inserted-count s.children parent at child q c in
          let was = h.once q c in ground arith)
    ];
  }
    where
      at : ℕ
      at = clamped (length (s.children parent)) index

  attach-child :
      (s : Scene) (parent child index : ℕ)
      → ((attach parent child index s).parent child ≡ some parent)
        × (get_elem?
              ((attach parent child index s).children parent)
              (clamped (length (s.children parent)) index)
            ≡ some child)
  unfolding attach
  attach-child s parent child index =
      let own : (child == child) ≡ true = ground arith in
      let same : (parent == parent) ≡ true = ground arith in
      (
        rw own refl,
        rw same (
            get-insert_at (clamped (length (s.children parent)) index) child (s.children parent)
              (ground arith)),
      )

  -- A child that is inserted, wherever it was, leaves the nodes a tree: each node stands once among the
  -- children of its parent and not among those of another. The child is its new parent's, at the given
  -- index or, where the parent has fewer children, after them.
  pub scene_insert-IsTree :
      (s : Scene) (parent child index : ℕ)
      → IsTree s
      → let t = scene_insert parent child index s in
        IsTree t
        × (t.parent child ≡ some parent)
        × (get_elem? (t.children parent) (clamped (length ((detach child s).children parent)) index)
            ≡ some child)
  unfolding scene_insert
  scene_insert-IsTree s parent child index h =
      let d = detach-IsTree s child h in
      let a = attach-child (detach child s) parent child index in
      let t = attach-IsTree (detach child s) parent child index d.1 d.0 in
      (record { once = t.once }, a.0, a.1)
