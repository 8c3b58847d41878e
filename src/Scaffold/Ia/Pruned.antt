-- ===== src/Scaffold/Ia/Pruned.antt =====
-- What is left of the tree for a frontend and an exposure.
use billgen.Prelude.{
  String, Bool, true, false, not, ◌&&◌, ◌||◌, List, [], ◌∷◌, ◌++◌, ◌≡◌, refl, ap, ◌∙◌,
  if◌then◌else◌, filter, filter-append, arith, Bool-cases, inl, inr,
}
use billgen.Scaffold.Ia.{
  IaNode, IaTree, node, IaForest, leafless, grow, is_leaf, Surface, Exposure, everything,
  only_wired, mvp, on_surface, is_exposed, is_everything, kept, prune, ia_for,
}

-- The nodes without children, in the order of the tree.
abbrev pub leaves : IaForest → List IaNode
leaves leafless = []
leaves (grow (node n leafless) ts) = n ∷ leaves ts
leaves (grow (node n (grow u us)) ts) = leaves (grow u us) ++ leaves ts

-- The leaves that a frontend can reach: neither they nor a node above them is another frontend's.
abbrev pub reached : Surface → IaForest → List IaNode
reached surface leafless = []
reached surface (grow (node n leafless) ts) =
    let rest = reached surface ts in if on_surface n surface then n ∷ rest else rest
reached surface (grow (node n (grow u us)) ts) =
    let rest = reached surface ts in
    let below = reached surface (grow u us) in if on_surface n surface then below ++ rest else rest

-- Sections have children.
abbrev pub have_children : IaForest → Bool
have_children leafless = true
have_children (grow (node n cs) ts) = not (is_leaf cs) && have_children ts

all_three : (a b c : Bool) → ((a && b) && c) ≡ true → (a ≡ true) × (b ≡ true) × (c ≡ true)
all_three a b c h = ground (arith, h)

module _ (mvp_surface : List String) (surface : Surface) (exposure : Exposure) where
  -- Every node is the frontend's, and every node without children is exposed.
  abbrev pub offered : IaForest → Bool
  offered leafless = true
  offered (grow (node n leafless) ts) =
      (on_surface n surface && is_exposed mvp_surface n exposure) && offered ts
  offered (grow (node n (grow u us)) ts) =
      (on_surface n surface && offered (grow u us)) && offered ts

  abbrev shown : IaNode → Bool
  shown n = is_exposed mvp_surface n exposure

  kept-offered :
      (n : IaNode) (pruned rest : IaForest)
      → (is_everything exposure ≡ true → is_exposed mvp_surface n exposure ≡ true)
      → offered pruned ≡ true
      → offered rest ≡ true
      → offered (kept mvp_surface n false pruned surface exposure rest) ≡ true
  kept-offered n leafless rest all h k = elim (Bool-cases (is_everything exposure)) [
    | inl e ↦ simp e (ground (arith, k, all e))
    | inr e ↦ simp e (ground (arith, k))
  ]
  kept-offered n (grow t ts) rest all h k = elim (Bool-cases (is_everything exposure)) [
    | inl e ↦ simp e (ground (arith, h, k))
    | inr e ↦ simp e (ground (arith, h, k))
  ]

  exposed_everything :
      (n : IaNode) (e : Exposure) → is_everything e ≡ true → is_exposed mvp_surface n e ≡ true
  unfolding is_exposed
  exposed_everything n everything h = refl
  exposed_everything n only_wired h = cc
  exposed_everything n mvp h = cc

  prune-offered : (ts : IaForest) → offered (prune mvp_surface ts surface exposure) ≡ true
  unfolding prune
  prune-offered leafless = refl
  prune-offered (grow (node n leafless) ts) = ground (arith, prune-offered ts)
  prune-offered (grow (node n (grow u us)) ts) =
      kept-offered n (prune mvp_surface (grow u us) surface exposure)
        (prune mvp_surface ts surface exposure) (exposed_everything n exposure)
        (prune-offered (grow u us)) (prune-offered ts)

  leaves-branch :
      (n : IaNode) (pruned rest : IaForest)
      → is_everything exposure ≡ false
      → leaves (kept mvp_surface n false pruned surface exposure rest)
        ≡ (if on_surface n surface then leaves pruned ++ leaves rest else leaves rest)
  leaves-branch n leafless rest e = simp e (ground arith)
  leaves-branch n (grow t ts) rest e = simp e (ground arith)

  filter-branch :
      (on : Bool) (xs ys : List IaNode) {us vs : List IaNode}
      → us ≡ filter shown xs
      → vs ≡ filter shown ys
      → (if on then us ++ vs else vs) ≡ filter shown (if on then xs ++ ys else ys)
  filter-branch true xs ys e f = cc (e, f, filter-append shown xs ys)
  filter-branch false xs ys e f = f

  leaves-prune :
      (ts : IaForest)
      → is_everything exposure ≡ false
      → leaves (prune mvp_surface ts surface exposure) ≡ filter shown (reached surface ts)
  unfolding prune
  leaves-prune leafless h = refl
  leaves-prune (grow (node n leafless) ts) h = elim (Bool-cases (on_surface n surface)) [
    | inl on ↦ simp on (elim (Bool-cases (shown n)) [
      | inl e ↦ simp e (ap (λ l. n ∷ l) (leaves-prune ts h))
      | inr e ↦ simp e (leaves-prune ts h)
    ])
    | inr off ↦ simp off (leaves-prune ts h)
  ]
  leaves-prune (grow (node n (grow u us)) ts) h =
      leaves-branch n (prune mvp_surface (grow u us) surface exposure)
        (prune mvp_surface ts surface exposure) h
      ∙ filter-branch (on_surface n surface) (reached surface (grow u us)) (reached surface ts)
          (leaves-prune (grow u us) h) (leaves-prune ts h)

  ia_for-branch :
      (n : IaNode) (left rest : IaForest)
      → (if on_surface n surface && (is_everything exposure || not (is_leaf left))
          then grow (node n left) rest
          else rest)
        ≡ kept mvp_surface n false left surface exposure rest
  ia_for-branch n left rest = elim (Bool-cases (on_surface n surface)) [
    | inl e ↦ simp e (elim (Bool-cases (is_everything exposure)) [
      | inl a ↦ simp a
      | inr a ↦ simp a (ground arith)
    ])
    | inr e ↦ simp e
  ]

  pub ia_for-prune :
      (ts : IaForest)
      → have_children ts ≡ true
      → ia_for mvp_surface ts surface exposure ≡ prune mvp_surface ts surface exposure
  unfolding prune ia_for
  ia_for-prune leafless h = refl
  ia_for-prune (grow (node n leafless) ts) h = cc
  ia_for-prune (grow (node n (grow u us)) ts) h =
      ia_for-branch n (prune mvp_surface (grow u us) surface exposure)
        (ia_for mvp_surface ts surface exposure)
      ∙ ap
          (kept mvp_surface n false (prune mvp_surface (grow u us) surface exposure) surface
            exposure)
          (ia_for-prune ts h)

  -- Of a tree whose sections have children, for a build that does not show everything: the nodes
  -- without children in the pruned tree are, in their order, those of the whole tree that are exposed
  -- and that the frontend can reach. None is lost with its section, and no section is left without any.
  pub ia_for-leaves :
      (ts : IaForest)
      → have_children ts ≡ true
      → is_everything exposure ≡ false
      → leaves (ia_for mvp_surface ts surface exposure)
        ≡ filter (λ n. is_exposed mvp_surface n exposure) (reached surface ts)
  ia_for-leaves ts h e = ap leaves (ia_for-prune ts h) ∙ leaves-prune ts e

  offered-branch :
      (n : IaNode) (u : IaTree) (us ts : IaForest) {vs ws : IaForest}
      → on_surface n surface ≡ true
      → vs ≡ grow u us
      → ws ≡ ts
      → kept mvp_surface n false vs surface exposure ws ≡ grow (node n (grow u us)) ts
  offered-branch n u us ts on below rest =
      rw (below, rest)
        (simp on (elim (Bool-cases (is_everything exposure)) [ inl e ↦ simp e | inr e ↦ simp e ]))

  offered-prune : (ts : IaForest) → offered ts ≡ true → prune mvp_surface ts surface exposure ≡ ts
  unfolding prune
  offered-prune leafless h = refl
  offered-prune (grow (node n leafless) ts) h = ground (arith, offered-prune ts)
  offered-prune (grow (node n (grow u us)) ts) h =
      let (on, below, rest) =
        all_three (on_surface n surface) (offered (grow u us)) (offered ts) h in
      offered-branch n u us ts on (offered-prune (grow u us) below) (offered-prune ts rest)

  -- Whatever the exposure, the pruned tree holds only what its frontend and exposure offer, and pruning
  -- it again changes nothing.
  pub prune_idempotent :
      (ts : IaForest)
      → let pruned = prune mvp_surface ts surface exposure in
        (offered pruned ≡ true) × (prune mvp_surface pruned surface exposure ≡ pruned)
  prune_idempotent ts = (prune-offered ts, offered-prune _ (prune-offered ts))
