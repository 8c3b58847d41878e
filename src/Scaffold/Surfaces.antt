-- ===== src/Scaffold/Surfaces.antt =====
-- What the tree of frontend-react/src/scaffold/ia.ts itself has to be for the shells that read it.
use billgen.Prelude.{
  String, Bool, true, not, ◌&&◌, ◌||◌, List, [], ◌∷◌, none, some, ◌≡◌, refl, map, all, any,
}
use billgen.Scaffold.Ia.{
  IaTree, info, children, is_leaf, Surface, both, saas, desktop, mvp, flatten_ia, with_labels,
  ia_for, prune, routable_nodes, on_surface, is_exposed, at_path, path_is, includes_text,
}
use billgen.Scaffold.Ia.Pruned.{have_children}
use billgen.Scaffold.Spec.{ia, mvp_surface}

abbrev distinct : List String → Bool
distinct [] = true
distinct (s ∷ ss) = not (includes_text ss s) && distinct ss

-- The paths of the nodes that have one.
abbrev paths : List IaTree → List String
paths [] = []
paths (t ∷ ts) = let rest = paths ts in elim (info t).path [ none ↦ rest | some p ↦ p ∷ rest ]

abbrev pub listed_leaf : IaTree → Bool
listed_leaf t = not (is_leaf (children t)) || any (λ p. path_is p (info t).path) mvp_surface

module _ (nav_label : String → String) where
  -- Every section has children, and no two nodes share a key or a path.
  pub nodes_distinct :
      (have_children (ia nav_label) ≡ true)
      × (distinct (map (λ t. (info t).key) (flatten_ia (ia nav_label))) ≡ true)
      × (distinct (paths (flatten_ia (ia nav_label))) ≡ true)
  unfolding flatten_ia with_labels
  nodes_distinct = (refl, refl, refl)

  -- On each frontend, every path of the first release is that of a node that the release mounts, and
  -- every node without children that it mounts is of such a path: the list and the tree agree.
  first_release :
      (surface : Surface)
      → let nodes = routable_nodes mvp_surface (ia nav_label) surface mvp in
        (all (λ p. any (at_path p) nodes) mvp_surface ≡ true) × (all listed_leaf nodes ≡ true)
  unfolding routable_nodes ia_for prune flatten_ia with_labels on_surface is_exposed
  first_release both = (refl, refl)
  first_release saas = (refl, refl)
  first_release desktop = (refl, refl)
