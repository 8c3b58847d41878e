-- ===== src/Scaffold/Router.antt =====
-- frontend-react/src/shell/routes.tsx: what the router mounts for the tree of Spec, and what a route
-- shows. React's elements are the data type RoutePage; the texts of lib/translations.ts are `nav_label`.
-- A location is matched to the route that it spells out, and a record's screen is taken at its
-- pattern, such as customers/clients/:clientId.
pub mod Mounted
use Prim.Native.String
use text.Mathlib.Text.{starts_with, find? as position_of}
use billgen.Prelude.{
  ℕ, zero, suc, String, Bool, true, false, not, List, [], ◌∷◌, ◌++◌, Option, none, some, ◌===◌,
  if◌then◌else◌, filter, find, map,
}
use billgen.Scaffold.Ia.{
  IaNode, IaTree, node, IaForest, leafless, grow, info, children, trees, Surface, saas, Exposure,
  has_path, at_path, includes_text, is_exposed, is_everything, routable_nodes, ia_trail,
}
use billgen.Scaffold.Spec.{ia, mvp_surface}

abbrev pub or_index : Option String → String
or_index none = ""
or_index (some s) = s

-- `/app${path ? `/${path}` : ""}`.
abbrev pub to_href : Option String → String
to_href none = "/app"
to_href (some path) = if path === "" then "/app" else String.◌++◌ "/app/" path

-- The keys of `BUILT`, the paths that have a screen, as the file groups them.
abbrev pub landing_paths : List String
landing_paths =
    "" ∷ "sales" ∷ "customers" ∷ "catalog" ∷ "reports" ∷ "billing" ∷ "documents" ∷ "explore"
    ∷ "activity" ∷ "help" ∷ "legal" ∷ "onboarding" ∷ "desktop" ∷ "catalog/templates" ∷ []

abbrev pub invoice_paths : List String
invoice_paths =
    "sales/invoices" ∷ "sales/invoices/draft" ∷ "sales/invoices/issued" ∷ "sales/invoices/paid"
    ∷ "sales/invoices/partially_paid" ∷ "sales/invoices/overdue" ∷ "sales/invoices/voided" ∷ []

abbrev pub record_paths : List String
record_paths =
    "sales/credit-notes" ∷ "customers/clients/:clientId" ∷ "sales/invoices/id/:invoiceId"
    ∷ "customers/clients" ∷ "catalog/products" ∷ "catalog/archived" ∷ "customers/activity"
    ∷ "reports/revenue" ∷ "reports/outstanding" ∷ "reports/overdue" ∷ "reports/invoices"
    ∷ "reports/payments" ∷ "billing/usage" ∷ "billing/plan" ∷ "reports/vat" ∷ []

abbrev pub settings_paths : List String
settings_paths =
    "company" ∷ "settings" ∷ "settings/account" ∷ "settings/appearance" ∷ "settings/privacy"
    ∷ "settings/import" ∷ "settings/backup" ∷ "onboarding/wizard" ∷ "activity/audit" ∷ []

abbrev pub built_paths : List String
built_paths = landing_paths ++ invoice_paths ++ record_paths ++ settings_paths

pub data RoutePage : Type 0 where
  redirected : String → RoutePage
  built_screen scaffold_page : IaNode → RoutePage

unfoldable pub ia_screen : IaTree → RoutePage
ia_screen t = elim (info t).merged_into [
  | some path ↦ redirected path
  | none ↦
      if includes_text built_paths (or_index (info t).path)
      then built_screen (info t)
      else scaffold_page (info t)
]

-- A route: the index route where there is no path, and the node that its element shows.
pub record Route : Type 0 where
  pub path : Option String
  pub shows : IaTree

abbrev pub route_of : IaTree → Route
route_of t = record {
  path = elim (info t).path [ none ↦ none | some p ↦ if p === "" then none else some p ];
  shows = t;
}

abbrev pub mounted_at : String → Route → Bool
mounted_at location r = or_index r.path === location

-- What a location shows once its redirects are followed, `fuel` of them at most.
unfoldable pub follow : List Route → ℕ → String → Option RoutePage
unfolding ia_screen
follow routes zero location = none
follow routes (suc fuel) location = elim (find (mounted_at location) routes) [
  | none ↦ none
  | some r ↦ elim (ia_screen r.shows) [
    | redirected path ↦ follow routes fuel path
    | built_screen n ↦ some (built_screen n)
    | scaffold_page n ↦ some (scaffold_page n)
  ]
]

-- `path.includes_text(":")`: the path has a route parameter.
abbrev pub has_colon : String → Bool
has_colon s = elim (position_of s ":") [ none ↦ false | some i ↦ true ]

-- `key.startsWith("settings.")`.
unfoldable pub is_settings_child : IaTree → Bool
is_settings_child t = starts_with (info t).key "settings."

-- The first node with the key, children before the nodes after it.
abbrev pub first_found : Option IaTree → Option IaTree → Option IaTree
first_found none later = later
first_found (some t) later = some t

unfoldable pub find_node : String → IaForest → Option IaTree
find_node key leafless = none
find_node key (grow (node n cs) ts) =
    let deeper = find_node key cs in
    let later = find_node key ts in
    if n.key === key then some (node n cs) else first_found deeper later

-- What the entries of a section's landing page open: its tiles, and the rows of the list that stands
-- for them on a build that shows everything.
abbrev pub tile_of : IaTree → List String → List String
tile_of t rest = elim (info t).path [ none ↦ rest | some p ↦ if p === "" then rest else p ∷ rest ]

abbrev pub tiles : List IaTree → List String
tiles [] = []
tiles (t ∷ ts) = let rest = tiles ts in tile_of t rest

abbrev pub link_before : List IaTree → Option String → Option String
link_before [] path = none
link_before (t ∷ ts) path = some (to_href path)

-- One step of a crumb: its label, and where it leads unless it is the last.
pub record Crumb : Type 0 where
  pub key : String
  pub label : String
  pub link : Option String

module _ (nav_label : String → String) where
  unfoldable pub build_app_routes : Surface → Exposure → List Route
  unfolding routable_nodes
  build_app_routes surface exposure =
      map route_of (filter has_path (routable_nodes mvp_surface (ia nav_label) surface exposure))

  -- The children of the settings that the rail lists.
  unfoldable pub settings_rail : Exposure → List IaTree
  unfolding find_node is_exposed
  settings_rail exposure = elim (find_node "settings" (ia nav_label)) [
    | none ↦ []
    | some t ↦ filter (λ c. is_exposed mvp_surface (info c) exposure) (trees (children t))
  ]

  -- The entries whose label is not the one of the entry before.
  abbrev pub renamed : String → List IaTree → List IaTree
  renamed label [] = []
  renamed label (t ∷ ts) =
      let rest = renamed (nav_label (info t).key) ts in
      if nav_label (info t).key === label then rest else t ∷ rest

  abbrev pub crumbs : List IaTree → List Crumb
  crumbs [] = []
  crumbs (t ∷ ts) =
      record {
        key = (info t).key;
        label = nav_label (info t).key;
        link = link_before ts (info t).path;
      }
      ∷ crumbs ts

  -- The trail is the web's on either surface: `iaTrail` is called without one.
  abbrev pub shown_trail : List IaTree → List Crumb
  shown_trail [] = []
  shown_trail (t ∷ []) = []
  shown_trail (t ∷ u ∷ us) = crumbs (t ∷ renamed (nav_label (info t).key) (u ∷ us))

  unfoldable pub breadcrumbs : IaTree → List Crumb
  unfolding ia_trail
  breadcrumbs t = shown_trail (ia_trail (ia nav_label) (or_index (info t).path) saas)
