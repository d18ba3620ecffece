-- ===== src/Scene/Tree/Freed.antt =====
-- A node that is freed leaves its parent and lets go of its children: scene_free.
use anyconsole.Base.{
  ℕ, ◌+◌, ◌≡◌, refl, sym, ◌∙◌, ap, inl, inr, Bool, true, false, Option, none, some, List, [], ◌∷◌,
  ltb, ◌==◌, ==_iff, ◌||◌, if◌then◌else◌, arith, Bool-cases,
}
use anyconsole.Scene.Tree.{
  Yoga, Scene, is_node, detach_from, detach, release_user, release_image, orphan, orphan_each,
  scene_free,
}
use anyconsole.Base.Counts.{write, one_if}
use anyconsole.Scene.Tree.Counts.{count}
use anyconsole.Scene.Tree.Consistent.{IsTree, detach-IsTree}

orphaned :
    (a : Bool) (n : ℕ) (o : Option ℕ)
    → (if ltb 0 n then none else (if a then none else o))
      ≡ (if ltb 0 (one_if a + n) then none else o)
orphaned a n o = ground arith

-- The children of `node` are those that have it as parent, so another node's are kept.
freed-once :
    (o : Option ℕ) (node q n k : ℕ)
    → n ≡ one_if (is_node o node)
    → k ≡ one_if (is_node o q)
    → (if node == q then 0 else k) ≡ one_if (is_node (if ltb 0 n then none else o) q)
freed-once none node q n k g h = ground arith
freed-once (some m) node q n k g h = ground arith

count-write :
    (f : ℕ → List ℕ) (node q c : ℕ)
    → count c (write f node [] q) ≡ (if node == q then 0 else count c (f q))
count-write f node q c = elim (Bool-cases (node == q)) [ inl e ↦ rw e refl | inr e ↦ rw e refl ]

cleared : (o : Option ℕ) (node : ℕ) → is_node (if is_node o node then none else o) node ≡ false
cleared none node = refl
cleared (some m) node = ground arith

kept-parent :
    (o : Option ℕ) (node : ℕ)
    → (if ltb 0 (one_if (is_node o node)) then none else o) ≡ (if is_node o node then none else o)
kept-parent o node = ground arith

-- With `o` the parent before and `p` the one after the node has been detached.
freed-parent :
    (o p : Option ℕ) (node c n : ℕ)
    → p ≡ (if node == c then none else o)
    → n ≡ one_if (is_node p node)
    → (if ltb 0 n then none else p) ≡ (if node == c || is_node o node then none else o)
freed-parent o p node c n e f = elim (Bool-cases (node == c)) [
  | inl own ↦ let gone : p ≡ none = e ∙ rw own refl in rw own (rw f (rw gone refl))
  | inr other ↦
      let same : p ≡ o = e ∙ rw other refl in rw other (rw f (rw same (kept-parent o node)))
]

module _ ⦃Y : Yoga⦄ where
  -- The nodes of `cs` have no parent after the loop over them, and the others keep theirs.
  orphan_each-parent :
      (node : ℕ) (cs : List ℕ) (s : Scene) (c : ℕ)
      → ((orphan_each node cs s).parent c ≡ (if ltb 0 (count c cs) then none else s.parent c))
        × ((orphan_each node cs s).children ≡ s.children)
  unfolding orphan_each orphan
  orphan_each-parent node [] s c = (refl, refl)
  orphan_each-parent node (x ∷ xs) s c =
      let rest = orphan_each-parent node xs (orphan node x s) c in
      (rest.0 ∙ orphaned (x == c) (count c xs) (s.parent c), rest.1)

  release_user-children :
      (o : Option ℕ) (node : ℕ) (s : Scene)
      → ((release_user o node s).children ≡ s.children)
        × ((release_user o node s).parent ≡ s.parent)
  unfolding release_user
  release_user-children none node s = (refl, refl)
  release_user-children (some i) node s = (refl, refl)

  release_image-children :
      (node : ℕ) (s : Scene)
      → ((release_image node s).children ≡ s.children) × ((release_image node s).parent ≡ s.parent)
  unfolding release_image
  release_image-children node s = release_user-children (s.image node) node s

  detach_from-parent :
      (o : Option ℕ) (node : ℕ) (s : Scene) (c : ℕ)
      → s.parent node ≡ o
      → (detach_from o node s).parent c ≡ (if node == c then none else s.parent c)
  unfolding detach_from
  detach_from-parent none node s c above = elim (Bool-cases (node == c)) [
    | inl e ↦ rw e (ap s.parent (sym ((==_iff node c).0 e)) ∙ above)
    | inr e ↦ rw e refl
  ]
  detach_from-parent (some p) node s c above = refl

  detach-parent :
      (node : ℕ) (s : Scene) (c : ℕ)
      → (detach node s).parent c ≡ (if node == c then none else s.parent c)
  unfolding detach
  detach-parent node s c = detach_from-parent (s.parent node) node s c refl

  orphan_each-image : (node : ℕ) (cs : List ℕ) (s : Scene) → (orphan_each node cs s).image ≡ s.image
  unfolding orphan_each orphan
  orphan_each-image node [] s = refl
  orphan_each-image node (x ∷ xs) s = orphan_each-image node xs (orphan node x s)

  release_user-image :
      (o : Option ℕ) (node : ℕ) (s : Scene)
      → s.image node ≡ o
      → (release_user o node s).image node ≡ none
  unfolding release_user
  release_user-image none node s e = e
  release_user-image (some i) node s e =
      let own : (node == node) ≡ true = ground arith in rw own refl

  release_image-image : (node : ℕ) (s : Scene) → (release_image node s).image node ≡ none
  unfolding release_image
  release_image-image node s = release_user-image (s.image node) node s refl

  -- A node that is freed has no parent and no children, is among no other node's children, is not the
  -- root and draws no image. Those
  -- that were its children have no parent, and every other node has the parent that it had. What is
  -- left is a tree.
  pub scene_free-IsTree :
      (s : Scene) (node : ℕ)
      → IsTree s
      → let t = scene_free node s in
        IsTree t
        × (t.parent node ≡ none)
        × (t.children node ≡ [])
        × ((q : ℕ) → count node (t.children q) ≡ 0)
        × (is_node t.root node ≡ false)
        × (t.image node ≡ none)
        × ((c : ℕ)
            → t.parent c ≡ (if node == c || is_node (s.parent c) node then none else s.parent c))
  unfolding scene_free
  scene_free-IsTree s node h =
      let free : (scene_free node s).parent node ≡ none = parents node ∙ (rw own refl) in
      (
        freed,
        free,
        (rw own refl),
        (λ q. freed.once q node ∙ rw free refl),
        cleared (orphan_each node (t.children node) t).root node,
        ap (λ f. f node) (orphan_each-image node (t.children node) t) ∙ release_image-image node d,
        parents,
      )
    where
      d : Scene
      d = detach node s

      t : Scene
      t = release_image node d

      own : (node == node) ≡ true
      own = ground arith

      tree : IsTree d
      tree = (detach-IsTree s node h).0

      same : (t.children ≡ d.children) × (t.parent ≡ d.parent)
      same = release_image-children node d

      kept : (orphan_each node (t.children node) t).children ≡ d.children
      kept = (orphan_each-parent node (t.children node) t node).1 ∙ same.0

      loop :
          (c : ℕ)
          → (orphan_each node (t.children node) t).parent c
            ≡ (if ltb 0 (count c (d.children node)) then none else d.parent c)
      loop c =
          (orphan_each-parent node (t.children node) t c).0
          ∙ ap (λ f. if ltb 0 (count c (f node)) then none else t.parent c) same.0
          ∙ ap (λ f. if ltb 0 (count c (d.children node)) then none else f c) same.1

      parents :
          (c : ℕ)
          → (orphan_each node (t.children node) t).parent c
            ≡ (if node == c || is_node (s.parent c) node then none else s.parent c)
      parents c =
          loop c
          ∙ freed-parent (s.parent c) (d.parent c) node c (count c (d.children node))
              (detach-parent node s c) (tree.once node c)

      freed : IsTree (scene_free node s)
      freed = record {
        once = λ q c.
            count-write (orphan_each node (t.children node) t).children node q c
            ∙ ap (λ f. if node == q then 0 else count c (f q)) kept
            ∙ freed-once (d.parent c) node q (count c (d.children node)) (count c (d.children q))
                (tree.once node c) (tree.once q c)
            ∙ ap (λ o. one_if (is_node o q)) (sym (loop c));
      }
