-- ===== src/Scaffold/Ia/Trail.antt =====
-- The way to a screen: `iaTrail` and `findByPath` agree, and the trail goes down the tree.
use mathlib.Core.List.{append_assoc}
use billgen.Prelude.{
  ℕ, zero, suc, get_elem?, String, Bool, true, false, not, List, [], ◌∷◌, ◌++◌, Option, none, some,
  ◌≡◌, refl, sym, ap, ◌∙◌, if◌then◌else◌, ◌===◌, filter, find, Bool-cases, inl, inr, Option-cases,
}
use billgen.Scaffold.Ia.{
  IaNode, IaTree, node, IaForest, leafless, grow, info, children, trees, Surface, everything,
  on_surface, is_exposed, flatten_ia, prune, ia_for, has_path, path_is, at_path, routable_nodes,
  find_by_path, first_of, walk, or_nothing, ia_trail,
}
use billgen.Scaffold.Ia.Pruned.{have_children, ia_for-prune}

abbrev pub last_of : List IaTree → Option IaNode
last_of [] = none
last_of (t ∷ []) = some (info t)
last_of (t ∷ u ∷ us) = last_of (u ∷ us)

abbrev pub info_of : Option IaTree → Option IaNode
info_of none = none
info_of (some t) = some (info t)

abbrev end_of : Option (List IaTree) → Option IaNode
end_of none = none
end_of (some trail) = last_of trail

abbrev or_later : Option IaNode → Option IaNode → Option IaNode
or_later none later = later
or_later (some n) later = some n

last_of-append : (ts : List IaTree) (t : IaTree) → last_of (ts ++ (t ∷ [])) ≡ some (info t)
last_of-append [] t = refl
last_of-append (u ∷ []) t = refl
last_of-append (u ∷ v ∷ us) t = last_of-append (v ∷ us) t

or_later-end_of :
    (ts : List IaTree) (u : IaTree) (us : List IaTree) (later : Option IaNode)
    → or_later (last_of (ts ++ (u ∷ us))) later ≡ last_of (ts ++ (u ∷ us))
or_later-end_of [] u [] later = refl
or_later-end_of [] u (v ∷ vs) later = or_later-end_of [] v vs later
or_later-end_of (t ∷ []) u us later = or_later-end_of [] u us later
or_later-end_of (t ∷ w ∷ ws) u us later = or_later-end_of (w ∷ ws) u us later

find-append :
    (p : IaTree → Bool) (ts us : List IaTree)
    → info_of (find p (ts ++ us)) ≡ or_later (info_of (find p ts)) (info_of (find p us))
find-append p [] us = refl
find-append p (t ∷ ts) us = elim (Bool-cases (p t)) [
  | inl e ↦ simp e
  | inr e ↦ simp e (find-append p ts us)
]

-- A node that is found by its path has one.
find-filter :
    (path : String) (ts : List IaTree)
    → find (at_path path) (filter has_path ts) ≡ find (at_path path) ts
find-filter path [] = refl
find-filter path (node n cs ∷ ts) = elim (Option-cases n.path) [
  | inl e ↦ simp e (find-filter path ts)
  | inr (p, e) ↦ simp e (elim (Bool-cases (p === path)) [
    | inl hit ↦ simp hit
    | inr miss ↦ simp miss (find-filter path ts)
  ])
]

module _ (path : String) (surface : Surface) where
  abbrev pub IsChild : IaTree → IaForest → Type 0
  IsChild t ts = (i : ℕ) × (get_elem? (trees ts) i ≡ some t)

  -- A way down the tree, through nodes of the frontend, that ends at a node with the path.
  abbrev pub IsWay : IaForest → List IaTree → Type 0
  IsWay ts [] = ⊥
  IsWay ts (t ∷ []) =
      IsChild t ts × (on_surface (info t) surface ≡ true) × (path_is path (info t).path ≡ true)
  IsWay ts (t ∷ u ∷ us) =
      IsChild t ts × (on_surface (info t) surface ≡ true) × IsWay (children t) (u ∷ us)

  IsWay-later :
      (t : IaTree) (ts : IaForest) (way : List IaTree) → IsWay ts way → IsWay (grow t ts) way
  IsWay-later t ts [] h = h
  IsWay-later t ts (u ∷ []) ((i, m), on, h) = ((suc i, m), on, h)
  IsWay-later t ts (u ∷ v ∷ us) ((i, m), on, h) = ((suc i, m), on, h)

  IsWay-below :
      (n : IaNode) (cs ts : IaForest) (way : List IaTree)
      → on_surface n surface ≡ true
      → IsWay cs way
      → IsWay (grow (node n cs) ts) (node n cs ∷ way)
  IsWay-below n cs ts [] on h = elim h [ ]
  IsWay-below n cs ts (u ∷ us) on h = ((zero, refl), on, h)

  -- What `walk` returns: none, or the trail that it was given and a way from there.
  abbrev Walked : IaForest → List IaTree → Option (List IaTree) → Type 0
  Walked ts trail none = Unit
  Walked ts trail (some t) = (way : List IaTree) × (t ≡ trail ++ way) × IsWay ts way

  Walked-later :
      (t : IaTree) (ts : IaForest) (trail : List IaTree) (o : Option (List IaTree))
      → Walked ts trail o
      → Walked (grow t ts) trail o
  Walked-later t ts trail none h = tt
  Walked-later t ts trail (some u) (way, e, h) = (way, e, IsWay-later t ts way h)

  Walked-below :
      (n : IaNode) (cs ts : IaForest) (trail : List IaTree) (deeper later : Option (List IaTree))
      → on_surface n surface ≡ true
      → Walked cs (trail ++ (node n cs ∷ [])) deeper
      → Walked ts trail later
      → Walked (grow (node n cs) ts) trail (first_of deeper later)
  Walked-below n cs ts trail none later on h k = Walked-later (node n cs) ts trail later k
  Walked-below n cs ts trail (some t) later on (way, e, h) k =
      (node n cs ∷ way, e ∙ append_assoc trail (node n cs ∷ []) way, IsWay-below n cs ts way on h)

  Walked-branch :
      (n : IaNode) (cs ts : IaForest) (trail : List IaTree) (deeper later : Option (List IaTree))
      (on here : Bool)
      → on_surface n surface ≡ on
      → path_is path n.path ≡ here
      → Walked cs (trail ++ (node n cs ∷ [])) deeper
      → Walked ts trail later
      → Walked (grow (node n cs) ts) trail (
          if not on
          then later
          else if here
          then some (trail ++ (node n cs ∷ []))
          else first_of deeper later)
  Walked-branch n cs ts trail deeper later false here e f h k =
      Walked-later (node n cs) ts trail later k
  Walked-branch n cs ts trail deeper later true true e f h k =
      (node n cs ∷ [], refl, ((zero, refl), e, f))
  Walked-branch n cs ts trail deeper later true false e f h k =
      Walked-below n cs ts trail deeper later e h k

  walk-Walked : (ts : IaForest) (trail : List IaTree) → Walked ts trail (walk path surface ts trail)
  unfolding walk
  walk-Walked leafless trail = tt
  walk-Walked (grow (node n cs) ts) trail =
      Walked-branch n cs ts trail (walk path surface cs (trail ++ (node n cs ∷ [])))
        (walk path surface ts trail) (on_surface n surface) (path_is path n.path) refl refl
        (walk-Walked cs (trail ++ (node n cs ∷ []))) (walk-Walked ts trail)

  end_of-first_of :
      (cs : IaForest) (trail : List IaTree) (deeper later : Option (List IaTree))
      → Walked cs trail deeper
      → end_of (first_of deeper later) ≡ or_later (end_of deeper) (end_of later)
  end_of-first_of cs trail none later h = refl
  end_of-first_of cs trail (some t) later ([], e, h) = elim h [ ]
  end_of-first_of cs trail (some t) later (u ∷ us, e, h) =
      rw e (sym (or_later-end_of trail u us (end_of later)))

  abbrev pub IsTrail : IaForest → List IaTree → Type 0
  IsTrail ia [] = Unit
  IsTrail ia (t ∷ ts) = IsWay ia (t ∷ ts)

  or_nothing-IsTrail :
      (ia : IaForest) (o : Option (List IaTree)) → Walked ia [] o → IsTrail ia (or_nothing o)
  or_nothing-IsTrail ia none h = tt
  or_nothing-IsTrail ia (some t) ([], e, h) = elim h [ ]
  or_nothing-IsTrail ia (some t) (u ∷ us, e, h) = rw e h

module _ (mvp_surface : List String) (path : String) (surface : Surface) where
  found : IaForest → Option IaNode
  found ts = info_of (find (at_path path) (flatten_ia (prune mvp_surface ts surface everything)))

  abbrev step : IaNode → Option IaNode → Option IaNode → Option IaNode
  step n below later =
      if not (on_surface n surface)
      then later
      else if path_is path n.path
      then some n
      else or_later below later

  step-branch :
      (n : IaNode) (left rest : IaForest)
      → info_of (
          find
            (at_path path)
            (flatten_ia (if not (on_surface n surface) then rest else grow (node n left) rest)))
        ≡ step n
            (info_of (find (at_path path) (flatten_ia left)))
            (info_of (find (at_path path) (flatten_ia rest)))
  unfolding flatten_ia
  step-branch n left rest = elim (Bool-cases (on_surface n surface)) [
    | inl on ↦ simp on (elim (Bool-cases (path_is path n.path)) [
      | inl e ↦ simp e
      | inr e ↦ simp e (find-append (at_path path) (flatten_ia left) (flatten_ia rest))
    ])
    | inr off ↦ simp off
  ]

  end_of-step :
      (n : IaNode) (cs : IaForest) (here trail : List IaTree) (deeper later : Option (List IaTree))
      → last_of here ≡ some n
      → Walked path surface cs here deeper
      → end_of (
          if not (on_surface n surface)
          then later
          else if path_is path n.path
          then some here
          else first_of deeper later)
        ≡ step n (end_of deeper) (end_of later)
  end_of-step n cs here trail deeper later e h = elim (Bool-cases (on_surface n surface)) [
    | inl on ↦ simp on (elim (Bool-cases (path_is path n.path)) [
      | inl hit ↦ simp hit e
      | inr miss ↦ simp miss (end_of-first_of path surface cs here deeper later h)
    ])
    | inr off ↦ simp off
  ]

  found-step :
      (n : IaNode) (cs ts : IaForest) → found (grow (node n cs) ts) ≡ step n (found cs) (found ts)
  unfolding found prune flatten_ia is_exposed
  found-step n leafless ts = step-branch n leafless (prune mvp_surface ts surface everything)
  found-step n (grow u us) ts =
      step-branch n (prune mvp_surface (grow u us) surface everything)
        (prune mvp_surface ts surface everything)

  walk-found :
      (ts : IaForest) (trail : List IaTree) → end_of (walk path surface ts trail) ≡ found ts
  unfolding walk found prune flatten_ia
  walk-found leafless trail = refl
  walk-found (grow (node n cs) ts) trail =
      let here = trail ++ (node n cs ∷ []) in
      end_of-step n cs here trail (walk path surface cs here) (walk path surface ts trail)
        (last_of-append trail (node n cs)) (walk-Walked path surface cs here)
      ∙ ap (step n (end_of (walk path surface cs here))) (walk-found ts trail)
      ∙ ap (λ o. step n o (found ts)) (walk-found cs here)
      ∙ sym (found-step n cs ts)

  find_by_path-found :
      (ia : IaForest)
      → have_children ia ≡ true
      → info_of (find_by_path mvp_surface ia path surface) ≡ found ia
  unfolding find_by_path routable_nodes found
  find_by_path-found ia h =
      ap info_of (find-filter path (flatten_ia (ia_for mvp_surface ia surface everything)))
      ∙ ap (λ t. info_of (find (at_path path) (flatten_ia t)))
          (ia_for-prune mvp_surface surface everything ia h)

  last_of-or_nothing : (o : Option (List IaTree)) → last_of (or_nothing o) ≡ end_of o
  last_of-or_nothing none = refl
  last_of-or_nothing (some t) = refl

  -- In a tree whose sections have children, the trail of a path ends at the node that `find_by_path`
  -- finds for it, with the fields of the tree, and is empty where that finds none; a trail that is not
  -- empty starts at a section, goes from a node to a child of it, keeps to the frontend's nodes, and ends
  -- at a node with the path.
  pub ia_trail_lem :
      (ia : IaForest)
      → have_children ia ≡ true
      → (last_of (ia_trail ia path surface) ≡ info_of (find_by_path mvp_surface ia path surface))
        × IsTrail path surface ia (ia_trail ia path surface)
  unfolding ia_trail
  ia_trail_lem ia h = (
    last_of-or_nothing (walk path surface ia []) ∙ walk-found ia [] ∙ sym (find_by_path-found ia h),
    or_nothing-IsTrail path surface ia (walk path surface ia []) (walk-Walked path surface ia []),
  )
