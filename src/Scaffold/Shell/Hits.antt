-- ===== src/Scaffold/Shell/Hits.antt =====
-- Where the commands that a search adds to the palette of the shell lead.
use mathlib.Core.Path.{subst}
use mathlib.Core.Option.{some-injective}
use billgen.Prelude.{
  String, Bool, true, not, ◌||◌, Option, none, some, arith, Bool-cases, inl, inr, All,
  if◌then◌else◌, List, [], ◌∷◌, ◌≡◌, refl, map, all, ◌===◌,
}
use billgen.Scaffold.Spec.{ia, mvp_surface}
use billgen.Scaffold.Ia.{
  info, Surface, both, saas, desktop, Exposure, everything, only_wired, mvp, flatten_ia,
  with_labels, ia_for, prune, routable_nodes, on_surface, is_exposed, includes_text,
}
use billgen.Scaffold.Router.{to_href, build_app_routes}
use billgen.Scaffold.Shell.{
  Destination, hit_destination, mounts, Hit, Command, record_command, record_commands,
}

-- The paths of `HIT_DESTINATION`, and the routes that they are mounted at.
abbrev hit_routes : List (String × String)
hit_routes =
    ("sales/invoices/id/:invoiceId", "/app/sales/invoices/id/:invoiceId")
    ∷ ("customers/clients/:clientId", "/app/customers/clients/:clientId")
    ∷ ("sales/quotes", "/app/sales/quotes")
    ∷ ("sales/credit-notes", "/app/sales/credit-notes")
    ∷ ("catalog/products", "/app/catalog/products")
    ∷ []

-- A destination of the table is one of these.
abbrev IsListed : Destination → Type 0
IsListed d =
    (parameter : String) × ((p : String → String → Bool)
      → all (λ r. p r.0 r.1) hit_routes ≡ true
      → p d.ia_path (d.href parameter) ≡ true)

hit_destination-IsListed :
    (kind : String) (d : Destination) → hit_destination kind ≡ some d → IsListed d
hit_destination-IsListed kind d h = elim (Bool-cases (kind === "invoice")) [
  | inl e1 ↦
      subst IsListed (some-injective _ _ (simp e1 at h)) (":invoiceId", λ p k. ground (arith, k))
  | inr e1 ↦ elim (Bool-cases (kind === "client")) [
    | inl e2 ↦
        subst IsListed (some-injective _ _ (simp (e1, e2) at h))
          (":clientId", λ p k. ground (arith, k))
    | inr e2 ↦ elim (Bool-cases (kind === "quote")) [
      | inl e3 ↦
          subst IsListed (some-injective _ _ (simp (e1, e2, e3) at h))
            ("", λ p k. ground (arith, k))
      | inr e3 ↦ elim (Bool-cases (kind === "credit_note")) [
        | inl e4 ↦
            subst IsListed (some-injective _ _ (simp (e1, e2, e3, e4) at h))
              ("", λ p k. ground (arith, k))
        | inr e4 ↦ elim (Bool-cases (kind === "product")) [
          | inl e5 ↦
              subst IsListed (some-injective _ _ (simp (e1, e2, e3, e4, e5) at h))
                ("", λ p k. ground (arith, k))
          | inr e5 ↦ cc (simp (e1, e2, e3, e4, e5) at h)
        ]
      ]
    ]
  ]
]

second_holds : (a b : Bool) → a ≡ true → (not a || b) ≡ true → b ≡ true
second_holds a b h k = ground arith

module _ (english : String → String) where
  abbrev pub build_hrefs : Surface → Exposure → List String
  build_hrefs surface exposure =
      map (λ r. to_href r.path) (build_app_routes english surface exposure)

  abbrev pub routable_paths : Surface → Exposure → List (Option String)
  routable_paths surface exposure =
      map (λ n. (info n).path) (routable_nodes mvp_surface (ia english) surface exposure)

  -- A location of a hit of the search: that of a kind of records, with the hit's id where the route
  -- has its parameter, if it has one; and the route is one of the build.
  abbrev pub IsMounted : Surface → Exposure → Command → Type 0
  IsMounted surface exposure c =
      (kind : String) × (d : Destination) × (id : String) × (parameter : String) × (hit_destination
          kind
        ≡ some d)
      × (c.target ≡ d.href id)
      × (includes_text (build_hrefs surface exposure) (d.href parameter) ≡ true)

  -- Each kind's route is in the build where its node can be reached.
  abbrev mounted_pairs : Surface → Exposure → List (String × String) → Bool
  mounted_pairs surface exposure pairs =
      all
        (λ p.
          not (mounts (routable_paths surface exposure) p.0)
          || includes_text (build_hrefs surface exposure) p.1)
        pairs

  routes_of_hits :
      (surface : Surface) (exposure : Exposure) → mounted_pairs surface exposure hit_routes ≡ true
  unfolding build_app_routes routable_nodes ia_for prune flatten_ia with_labels on_surface
      is_exposed
  routes_of_hits both everything = refl
  routes_of_hits both only_wired = refl
  routes_of_hits both mvp = refl
  routes_of_hits saas everything = refl
  routes_of_hits saas only_wired = refl
  routes_of_hits saas mvp = refl
  routes_of_hits desktop everything = refl
  routes_of_hits desktop only_wired = refl
  routes_of_hits desktop mvp = refl

  -- A kind of hits whose node is in the build leads to a route of it.
  hit-mounted :
      (surface : Surface) (exposure : Exposure) (d : Destination)
      → IsListed d
      → mounts (routable_paths surface exposure) d.ia_path ≡ true
      → (parameter : String) × (includes_text (build_hrefs surface exposure) (d.href parameter)
          ≡ true)
  hit-mounted surface exposure d (parameter, listed) h = (
    parameter,
    second_holds _ _ h (
        listed
          (λ path href.
            not (mounts (routable_paths surface exposure) path)
            || includes_text (build_hrefs surface exposure) href)
          (routes_of_hits surface exposure)),
  )

  module _ (surface : Surface) (exposure : Exposure) (query : String) where
    guarded-IsMounted :
        (hit : Hit) (d : Destination) (rest : List Command)
        → hit_destination hit.hit_kind ≡ some d
        → All (IsMounted surface exposure) rest
        → All (IsMounted surface exposure) (
            if mounts (routable_paths surface exposure) d.ia_path
            then record_command query hit d ∷ rest
            else rest)
    guarded-IsMounted hit d rest e h =
        elim (Bool-cases (mounts (routable_paths surface exposure) d.ia_path)) [
          | inl m ↦
              let (parameter, mounted) =
                hit-mounted surface exposure d (hit_destination-IsListed hit.hit_kind d e) m in
              simp m ((hit.hit_kind, d, hit.id, parameter, e, refl, mounted), h)
          | inr m ↦ simp m h
        ]

    hit-IsMounted :
        (hit : Hit) (o : Option Destination) (rest : List Command)
        → hit_destination hit.hit_kind ≡ o
        → All (IsMounted surface exposure) rest
        → All (IsMounted surface exposure) (elim o [
          | none ↦ rest
          | some d ↦
              if mounts (routable_paths surface exposure) d.ia_path
              then record_command query hit d ∷ rest
              else rest
        ])
    hit-IsMounted hit none rest e h = h
    hit-IsMounted hit (some d) rest e h = guarded-IsMounted hit d rest e h

    pub record_commands-IsMounted :
        (hits : List Hit)
        → All
            (IsMounted surface exposure)
            (record_commands (routable_paths surface exposure) query hits)
    unfolding record_commands
    record_commands-IsMounted [] = tt
    record_commands-IsMounted (hit ∷ hits) =
        hit-IsMounted hit (hit_destination hit.hit_kind) _ refl (record_commands-IsMounted hits)
