-- ===== src/Scaffold/Router/Mounted.antt =====
-- What the router mounts on each build: every location that is linked to shows a screen.
use billgen.Prelude.{
  String, Bool, true, false, not, List, [], ◌∷◌, Option, none, some, ◌≡◌, refl, map, all, filter,
  ◌++◌, if◌then◌else◌,
}
use billgen.Scaffold.Ia.{
  IaTree, info, children, trees, Surface, both, saas, desktop, Exposure, everything, only_wired,
  mvp, flatten_ia, with_labels, ia_for, prune, routable_nodes, on_surface, is_exposed,
  includes_text, walk, ia_trail,
}
use billgen.Scaffold.Spec.{ia, mvp_surface}
use billgen.Scaffold.Router.{
  has_colon, RoutePage, built_screen, or_index, build_app_routes, ia_screen, follow, find_node,
  settings_rail, breadcrumbs, Crumb, tiles,
}

abbrev pub shows_page : Option RoutePage → Bool
shows_page none = false
shows_page (some p) = true

abbrev shows_built : Option RoutePage → Bool
shows_built (some (built_screen n)) = true
shows_built _ = false

abbrev is_empty : List Crumb → Bool
is_empty [] = true
is_empty (c ∷ cs) = false

abbrev is_short : List IaTree → Bool
is_short (t ∷ u ∷ us) = false
is_short _ = true

abbrev pub open_patterns : Exposure → List String
open_patterns only_wired = []
open_patterns _ = "sales/invoices/id/:invoiceId" ∷ "customers/clients/:clientId" ∷ []

module _ (nav_label : String → String) where
  abbrev pub shown : Surface → Exposure → String → Option RoutePage
  shown surface exposure location = follow (build_app_routes nav_label surface exposure) 2 location

  abbrev pub locations : Surface → Exposure → List String
  locations surface exposure =
      map (λ r. or_index r.path) (build_app_routes nav_label surface exposure)

  -- Whether a node below a section has breadcrumbs exactly where the web mounts it.
  abbrev pub crumbs_where_mounted : Surface → IaTree → Bool
  crumbs_where_mounted surface t =
      let path = or_index (info t).path in
      if is_short (ia_trail (ia nav_label) path surface)
      then true
      else if is_empty (breadcrumbs nav_label t)
      then not (includes_text (locations saas everything) path)
      else includes_text (locations saas everything) path

  -- On each frontend and for each exposure, following redirects from the location of any route of the
  -- build ends at a page: after one redirect at most, and never at a location that is not mounted.
  pub redirects_end :
      (surface : Surface) (exposure : Exposure)
      → all (λ l. shows_page (shown surface exposure l)) (locations surface exposure) ≡ true
  unfolding follow build_app_routes ia_screen routable_nodes ia_for prune flatten_ia with_labels
      on_surface is_exposed
  redirects_end both everything = refl
  redirects_end both only_wired = refl
  redirects_end both mvp = refl
  redirects_end saas everything = refl
  redirects_end saas only_wired = refl
  redirects_end saas mvp = refl
  redirects_end desktop everything = refl
  redirects_end desktop only_wired = refl
  redirects_end desktop mvp = refl

  abbrev pub unbuilt_locations : Surface → Exposure → List String
  unbuilt_locations surface exposure =
      filter (λ l. not (shows_built (shown surface exposure l))) (locations surface exposure)

  -- On each frontend: every location of the first release shows a screen that is built, and of the build
  -- of the wired areas just two, activity/user and activity/security, do not.
  shown-built :
      (surface : Surface)
      → (unbuilt_locations surface mvp ≡ [])
        × (unbuilt_locations surface only_wired ≡ "activity/user" ∷ "activity/security" ∷ [])
  unfolding follow build_app_routes ia_screen routable_nodes ia_for prune flatten_ia with_labels
      on_surface is_exposed
  shown-built both = (refl, refl)
  shown-built saas = (refl, refl)
  shown-built desktop = (refl, refl)

  -- The tiles of all the landing pages of a build.
  abbrev tiles_of : List IaTree → List String
  tiles_of [] = []
  tiles_of (s ∷ ss) = tiles (trees (children s)) ++ tiles_of ss

  abbrev pub all_tiles : Surface → Exposure → List String
  all_tiles surface exposure = tiles_of (trees (ia_for mvp_surface (ia nav_label) surface exposure))

  -- On each frontend and for each exposure the entries of the landing pages lead to routes of the build;
  -- but except on the build of the wired areas, two of them lead to the pattern of a record's route,
  -- with no record in it.
  tiles-mounted :
      (surface : Surface) (exposure : Exposure)
      → (all (includes_text (locations surface exposure)) (all_tiles surface exposure) ≡ true)
        × (filter has_colon (all_tiles surface exposure) ≡ open_patterns exposure)
  unfolding build_app_routes routable_nodes ia_for prune flatten_ia with_labels on_surface
      is_exposed
  tiles-mounted both everything = (refl, refl)
  tiles-mounted both only_wired = (refl, refl)
  tiles-mounted both mvp = (refl, refl)
  tiles-mounted saas everything = (refl, refl)
  tiles-mounted saas only_wired = (refl, refl)
  tiles-mounted saas mvp = (refl, refl)
  tiles-mounted desktop everything = (refl, refl)
  tiles-mounted desktop only_wired = (refl, refl)
  tiles-mounted desktop mvp = (refl, refl)

  -- On each frontend and for each exposure, every entry of the settings rail is a route of the build.
  pub settings_rail_mounted :
      (surface : Surface) (exposure : Exposure)
      → all
          (λ t. includes_text (locations surface exposure) (or_index (info t).path))
          (settings_rail nav_label exposure)
        ≡ true
  unfolding settings_rail find_node build_app_routes routable_nodes ia_for prune flatten_ia
      with_labels on_surface is_exposed
  settings_rail_mounted both everything = refl
  settings_rail_mounted both only_wired = refl
  settings_rail_mounted both mvp = refl
  settings_rail_mounted saas everything = refl
  settings_rail_mounted saas only_wired = refl
  settings_rail_mounted saas mvp = refl
  settings_rail_mounted desktop everything = refl
  settings_rail_mounted desktop only_wired = refl
  settings_rail_mounted desktop mvp = refl

  -- On each frontend and for each exposure, a node whose trail on that frontend has another node before
  -- it shows breadcrumbs exactly where the web mounts its path: one that only the desktop mounts has none.
  breadcrumbs_lost :
      (surface : Surface) (exposure : Exposure)
      → all
          (crumbs_where_mounted surface)
          (routable_nodes mvp_surface (ia nav_label) surface exposure)
        ≡ true
  unfolding breadcrumbs walk ia_trail build_app_routes routable_nodes ia_for prune flatten_ia
      with_labels on_surface is_exposed
  breadcrumbs_lost both everything = refl
  breadcrumbs_lost both only_wired = refl
  breadcrumbs_lost both mvp = refl
  breadcrumbs_lost saas everything = refl
  breadcrumbs_lost saas only_wired = refl
  breadcrumbs_lost saas mvp = refl
  breadcrumbs_lost desktop everything = refl
  breadcrumbs_lost desktop only_wired = refl
  breadcrumbs_lost desktop mvp = refl
