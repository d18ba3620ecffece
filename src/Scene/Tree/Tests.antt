-- ===== src/Scene/Tree/Tests.antt =====
-- Examples of the tree: a list of three nodes.
use anyconsole.Base.{
  ℕ, ◌≡◌, refl, false, none, some, [], ◌∷◌, length, get_elem?, ◌==◌, ◌||◌, if◌then◌else◌,
}
use anyconsole.Scene.Tree.{
  Yoga, Scene, is_node, detach, detach_from, remove_first, scene_insert, scene_free, attach,
  insert_at,
}
use anyconsole.Scene.Tree.Counts.{count}
use anyconsole.Scene.Tree.Consistent.{IsTree, clamped, scene_insert-IsTree}
use anyconsole.Scene.Tree.Freed.{scene_free-IsTree}

-- A layout that keeps nothing.
abbrev no_layout : Yoga
no_layout = record {
  Nodes = ℕ;
  parent = λ s n. none;
  measures = λ s n. false;
  insert_child = λ p c i s. s;
  remove_child = λ p c s. s;
  free = λ n s. s;
}

abbrev alone : Scene ⦃Y = no_layout⦄
alone = record {
  parent = λ _. none;
  children = λ _. [];
  image = λ _. none;
  users = λ _. 0;
  root = none;
  yoga = 0;
  marks = [];
}

alone-IsTree : IsTree ⦃Y = no_layout⦄ alone
alone-IsTree = record { once = λ p c. refl }

abbrev pair : Scene ⦃Y = no_layout⦄
pair = scene_insert ⦃Y = no_layout⦄ 0 1 0 alone

pair-IsTree : IsTree ⦃Y = no_layout⦄ pair
pair-IsTree = (scene_insert-IsTree ⦃Y = no_layout⦄ alone 0 1 0 alone-IsTree).0

scene_insert-IsTree_example :
    let t = scene_insert ⦃Y = no_layout⦄ 0 2 0 pair in
    IsTree ⦃Y = no_layout⦄ t
    × (t.parent 2 ≡ some 0)
    × (get_elem? (t.children 0) (clamped (length ((detach ⦃Y = no_layout⦄ 2 pair).children 0)) 0)
        ≡ some 2)
scene_insert-IsTree_example = scene_insert-IsTree ⦃Y = no_layout⦄ pair 0 2 0 pair-IsTree

scene_free-IsTree_example :
    let t = scene_free ⦃Y = no_layout⦄ 0 pair in
    IsTree ⦃Y = no_layout⦄ t
    × (t.parent 0 ≡ none)
    × (t.children 0 ≡ [])
    × ((q : ℕ) → count 0 (t.children q) ≡ 0)
    × (is_node t.root 0 ≡ false)
    × (t.image 0 ≡ none)
    × ((c : ℕ) → t.parent c ≡ (if 0 == c || is_node (pair.parent c) 0 then none else pair.parent c))
scene_free-IsTree_example = scene_free-IsTree ⦃Y = no_layout⦄ pair 0 pair-IsTree

scene_insert_test : (scene_insert ⦃Y = no_layout⦄ 0 2 0 pair).children 0 ≡ 2 ∷ 1 ∷ []
unfolding scene_insert attach detach detach_from remove_first insert_at
scene_insert_test = refl
