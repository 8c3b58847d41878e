-- ===== src/Scaffold/Ia.antt =====
-- The types and the functions of frontend-react/src/scaffold/ia.ts. The texts of
-- lib/translations.ts are the parameter `nav_label`.
pub mod Pruned
pub mod Trail
pub mod Ledger
use billgen.Prelude.{
  String, Bool, true, false, not, ◌&&◌, ◌||◌, List, [], ◌∷◌, ◌++◌, Option, none, some, ◌===◌,
  if◌then◌else◌, filter, find, any,
}

pub data BackendStatus : Type 0 where
  wired partial unbuilt : BackendStatus

pub data Layer : Type 0 where
  l1 l2 l3 l4 l5 l6 : Layer

pub data Surface : Type 0 where
  both saas desktop : Surface

pub data Exposure : Type 0 where
  everything only_wired mvp : Exposure

-- The fields of a node but its children. An absent list is the empty one. `label` is "" in the tree as
-- authored, and `primary` is a section's.
pub record IaNode : Type 0 where
  pub key : String
  pub label : String
  pub path : Option String
  pub status : BackendStatus
  pub layer : Layer
  pub endpoints : List String
  pub missing : List String
  pub note : Option String
  pub surface : Option Surface
  pub nav : Option Bool
  pub merged_into : Option String
  pub primary : Option Bool

-- A node with its children, and a list of such. Absent children are no children, as every reader has
-- it (`children ?? []`, `!children?.length`).
mutual
  pub data IaTree : Type 0 where
    node : IaNode → IaForest → IaTree

  pub data IaForest : Type 0 where
    leafless : IaForest
    grow : IaTree → IaForest → IaForest

abbrev pub info : IaTree → IaNode
info (node n cs) = n

abbrev pub children : IaTree → IaForest
children (node n cs) = cs

abbrev pub trees : IaForest → List IaTree
trees leafless = []
trees (grow t ts) = t ∷ trees ts

abbrev pub is_leaf : IaForest → Bool
is_leaf leafless = true
is_leaf (grow t ts) = false

abbrev pub joined : IaForest → IaForest → IaForest
joined leafless us = us
joined (grow t ts) us = grow t (joined ts us)

module _ (nav_label : String → String) where
  unfoldable pub with_labels : IaForest → IaForest
  with_labels leafless = leafless
  with_labels (grow (node n cs) ts) =
      grow (node (record n { label = nav_label n.key }) (with_labels cs)) (with_labels ts)

unfoldable pub flatten_ia : IaForest → List IaTree
flatten_ia leafless = []
flatten_ia (grow (node n cs) ts) = node n cs ∷ (flatten_ia cs ++ flatten_ia ts)

abbrev pub same_surface : Surface → Surface → Bool
same_surface both both = true
same_surface saas saas = true
same_surface desktop desktop = true
same_surface _ _ = false

abbrev pub surface_or_both : Option Surface → Surface
surface_or_both none = both
surface_or_both (some s) = s

unfoldable pub on_surface : IaNode → Surface → Bool
on_surface n surface =
    let own = surface_or_both n.surface in
    same_surface own both || (same_surface surface both || same_surface own surface)

unfoldable pub alerts_offered : Exposure → Bool
alerts_offered mvp = false
alerts_offered _ = true

abbrev pub is_wired : BackendStatus → Bool
is_wired wired = true
is_wired _ = false

abbrev pub includes_text : List String → String → Bool
includes_text texts s = any (λ t. t === s) texts

-- `node.path === undefined`, and the paths of the first release otherwise.
abbrev pub in_release : List String → Option String → BackendStatus → Bool
in_release surface none status = is_wired status
in_release surface (some path) status = includes_text surface path

abbrev pub is_everything : Exposure → Bool
is_everything everything = true
is_everything _ = false

abbrev pub has_path : IaTree → Bool
has_path (node n cs) = elim n.path [ none ↦ false | some p ↦ true ]

abbrev pub not_false : Option Bool → Bool
not_false (some false) = false
not_false _ = true

unfoldable pub is_nav_destination : IaTree → Bool
is_nav_destination t = has_path t && not_false (info t).nav

abbrev pub path_is : String → Option String → Bool
path_is path none = false
path_is path (some p) = p === path

abbrev pub at_path : String → IaTree → Bool
at_path path t = path_is path (info t).path

module _ (mvp_surface : List String) where
  unfoldable pub is_exposed : IaNode → Exposure → Bool
  is_exposed n everything = true
  is_exposed n only_wired = is_wired n.status
  is_exposed n mvp = in_release mvp_surface n.path n.status

  -- What is left of one node, given what is left of its children.
  abbrev pub kept : IaNode → Bool → IaForest → Surface → Exposure → IaForest → IaForest
  kept n leaf pruned surface exposure rest =
      if not (on_surface n surface)
      then rest
      else if leaf
      then (if is_exposed n exposure then grow (node n leafless) rest else rest)
      else if not (is_everything exposure) && is_leaf pruned
      then rest
      else grow (node n pruned) rest

  unfoldable pub prune : IaForest → Surface → Exposure → IaForest
  prune leafless surface exposure = leafless
  prune (grow (node n cs) ts) surface exposure =
      kept n (is_leaf cs) (prune cs surface exposure) surface exposure (prune ts surface exposure)

  -- A section stands where a child of it does.
  unfoldable pub ia_for : IaForest → Surface → Exposure → IaForest
  unfolding prune
  ia_for leafless surface exposure = leafless
  ia_for (grow (node n cs) ts) surface exposure =
      let rest = ia_for ts surface exposure in
      let left = prune cs surface exposure in
      if on_surface n surface && (is_everything exposure || not (is_leaf left))
      then grow (node n left) rest
      else rest

  unfoldable pub routable_nodes : IaForest → Surface → Exposure → List IaTree
  unfolding ia_for flatten_ia
  routable_nodes ia surface exposure = filter has_path (flatten_ia (ia_for ia surface exposure))

  unfoldable pub nav_nodes : IaForest → Surface → List IaTree
  unfolding routable_nodes is_nav_destination
  nav_nodes ia surface = filter is_nav_destination (routable_nodes ia surface everything)

  unfoldable pub find_by_path : IaForest → String → Surface → Option IaTree
  unfolding routable_nodes
  find_by_path ia path surface = find (at_path path) (routable_nodes ia surface everything)

abbrev first_of : Option (List IaTree) → Option (List IaTree) → Option (List IaTree)
first_of none later = later
first_of (some t) later = some t

-- `walk`, over a level of the tree and what hangs below it.
unfoldable pub walk : String → Surface → IaForest → List IaTree → Option (List IaTree)
walk path surface leafless trail = none
walk path surface (grow (node n cs) ts) trail =
    let here = trail ++ (node n cs ∷ []) in
    let deeper = walk path surface cs here in
    let later = walk path surface ts trail in
    if not (on_surface n surface)
    then later
    else if path_is path n.path
    then some here
    else first_of deeper later

abbrev or_nothing : Option (List IaTree) → List IaTree
or_nothing none = []
or_nothing (some t) = t

unfoldable pub ia_trail : IaForest → String → Surface → List IaTree
unfolding walk
ia_trail ia path surface = or_nothing (walk path surface ia [])
