-- ===== src/Scene/Tree.antt =====
-- guest/scene.c: the tree of nodes (detach, release_image, scene_free, yoga_index, scene_insert,
-- scene_remove). A node is a number, the address of it. Yoga, which lays the nodes out, is a parameter.
-- Which texts are to be measured again is written to `marks`, the last one first.
pub mod Counts
pub mod Consistent
pub mod Freed
mod Tests
use anyconsole.Base.{
  ℕ, zero, suc, ◌+◌, ◌-◌, Bool, true, false, not, ◌&&◌, Option, none, some, List, [], ◌∷◌, length,
  ltb, ◌==◌, if◌then◌else◌,
}
use anyconsole.Base.Counts.{write}

-- The calls of Yoga: a node's parent, whether it measures itself, and the changes of its tree.
pub record Yoga : Type 1 where
  pub Nodes : Type 0
  pub parent : Nodes → ℕ → Option ℕ
  pub measures : Nodes → ℕ → Bool
  pub insert_child : ℕ → ℕ → ℕ → Nodes → Nodes
  pub remove_child : ℕ → ℕ → Nodes → Nodes
  pub free : ℕ → Nodes → Nodes

-- mark_text_dirty of a node, or mark_subtree_text.
pub data Mark : Type 0 where
  text : ℕ → Mark
  subtree : ℕ → Mark

unfoldable pub remove_first : ℕ → List ℕ → List ℕ
remove_first c [] = []
remove_first c (x ∷ xs) = if x == c then xs else x ∷ remove_first c xs

-- At the end, where the index is past it.
unfoldable pub insert_at : ℕ → ℕ → List ℕ → List ℕ
insert_at index c [] = c ∷ []
insert_at zero c (x ∷ xs) = c ∷ x ∷ xs
insert_at (suc index) c (x ∷ xs) = x ∷ insert_at index c xs

abbrev pub is_some : Option ℕ → Bool
is_some none = false
is_some (some n) = true

abbrev pub is_node : Option ℕ → ℕ → Bool
is_node none n = false
is_node (some m) n = m == n

module _ ⦃Y : Yoga⦄ where
  -- `users` counts the nodes that draw an image.
  pub record Scene : Type 0 where
    pub parent : ℕ → Option ℕ
    pub children : ℕ → List ℕ
    pub image : ℕ → Option ℕ
    pub users : ℕ → ℕ
    pub root : Option ℕ
    pub yoga : Y.Nodes
    pub marks : List Mark

  abbrev pub mark : Mark → Scene → Scene
  mark m s = record s { marks = m ∷ s.marks }

  unfoldable pub detach_from : Option ℕ → ℕ → Scene → Scene
  detach_from none child s = s
  detach_from (some p) child s = mark (Mark.text p) (record s {
    children = write s.children p (remove_first child (s.children p));
    yoga = if is_some (Y.parent s.yoga child) then Y.remove_child p child s.yoga else s.yoga;
    parent = write s.parent child none;
  })

  unfoldable pub detach : ℕ → Scene → Scene
  detach child s = detach_from (s.parent child) child s

  unfoldable pub release_user : Option ℕ → ℕ → Scene → Scene
  release_user none node s = s
  release_user (some i) node s = record s {
    users = write s.users i (s.users i - 1);
    image = write s.image node none;
  }

  unfoldable pub release_image : ℕ → Scene → Scene
  release_image node s = release_user (s.image node) node s

  unfoldable pub orphan : ℕ → ℕ → Scene → Scene
  orphan node child s = record s {
    parent = write s.parent child none;
    yoga = Y.remove_child node child s.yoga;
  }

  -- The loop over a node's children.
  unfoldable pub orphan_each : ℕ → List ℕ → Scene → Scene
  orphan_each node [] s = s
  orphan_each node (c ∷ cs) s = orphan_each node cs (orphan node c s)

  -- What is freed is not read again: a node without children.
  unfoldable pub scene_free : ℕ → Scene → Scene
  scene_free node s =
      let t = release_image node (detach node s) in
      let u = orphan_each node (t.children node) t in
      record u {
        root = if is_node u.root node then none else u.root;
        yoga = Y.free node u.yoga;
        children = write u.children node [];
      }

  -- Those of the first `index` children that are the parent's in Yoga too.
  unfoldable pub yoga_index : Y.Nodes → ℕ → List ℕ → ℕ → ℕ
  yoga_index yoga parent [] index = 0
  yoga_index yoga parent (c ∷ cs) zero = 0
  yoga_index yoga parent (c ∷ cs) (suc index) =
      let rest = yoga_index yoga parent cs index in
      if is_node (Y.parent yoga c) parent then suc rest else rest

  unfoldable pub attach : ℕ → ℕ → ℕ → Scene → Scene
  attach parent child index s =
      let at =
        if ltb (length (s.children parent)) index then length (s.children parent) else index in
      let children = insert_at at child (s.children parent) in
      record s {
        children = write s.children parent children;
        parent = write s.parent child (some parent);
        yoga =
            if Y.measures s.yoga parent
            then s.yoga
            else Y.insert_child parent child (yoga_index s.yoga parent children at) s.yoga;
      }

  unfoldable pub scene_insert : ℕ → ℕ → ℕ → Scene → Scene
  scene_insert parent child index s =
      mark (Mark.text parent)
        (mark (Mark.subtree child) (attach parent child index (detach child s)))

  unfoldable pub scene_remove : ℕ → Scene → Scene
  scene_remove child s = detach child s
