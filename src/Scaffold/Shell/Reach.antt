-- ===== src/Scaffold/Shell/Reach.antt =====
-- Where the links and the commands of the shell lead: what the router mounts.
use text.Mathlib.Text.{starts_with}
use billgen.Prelude.{String, Bool, true, ◌||◌, All, List, [], ◌∷◌, ◌++◌, ◌≡◌, refl, map, all, ◌===◌}
use billgen.Scaffold.Ia.{
  Surface, both, saas, desktop, Exposure, everything, only_wired, mvp, flatten_ia, with_labels,
  ia_for, prune, routable_nodes, on_surface, is_exposed, includes_text, is_nav_destination,
}
use billgen.Scaffold.Router.{has_colon, build_app_routes}
use billgen.Scaffold.Shell.Hits.{build_hrefs, routable_paths, IsMounted, record_commands-IsMounted}
use billgen.Scaffold.Shell.{
  Hit, Command, LinkAction, opens, items, TopNavLink, MenuEntry, entry, links, account_items,
  commands, record_commands,
}

abbrev targets_of : LinkAction → List String
targets_of (opens l) = l ∷ []
targets_of (items es) = map (λ e. e.target) es

abbrev link_targets : List TopNavLink → List String
link_targets [] = []
link_targets (l ∷ ls) = targets_of l.action ++ link_targets ls

abbrev account_targets : List MenuEntry → List String
account_targets [] = []
account_targets (entry e ∷ es) = e.target ∷ account_targets es
account_targets (_ ∷ es) = account_targets es

-- A record's pattern, or a tab of the invoice list.
abbrev pub is_inner : String → Bool
is_inner l = has_colon l || starts_with l "/app/sales/invoices/"

module _ (nav_label english t : String → String) (overview : String → String)
    (pathname : String) where
  abbrev pub hrefs : Surface → Exposure → List String
  hrefs surface exposure = build_hrefs english surface exposure

  -- All that the shell leads to without a search, but the builder of a new invoice.
  abbrev pub led_to : Surface → Exposure → List String
  led_to surface exposure =
      link_targets (links nav_label english t overview pathname surface exposure)
      ++ (account_targets (account_items nav_label english t overview true surface exposure)
          ++ map (λ c. c.target) (commands nav_label english t overview surface exposure "" []))

  fixed_leads :
      (surface : Surface) (exposure : Exposure)
      → (all
            (λ l. l === "/app/sales/invoices/new" || includes_text (hrefs surface exposure) l)
            (led_to surface exposure)
          ≡ true)
        × (all
              (λ l. is_inner l || includes_text (led_to surface exposure) l)
              (hrefs surface exposure)
            ≡ true)
  unfolding links account_items commands record_commands build_app_routes routable_nodes ia_for
      prune flatten_ia with_labels on_surface is_exposed is_nav_destination
  fixed_leads both everything = (refl, refl)
  fixed_leads both only_wired = (refl, refl)
  fixed_leads both mvp = (refl, refl)
  fixed_leads saas everything = (refl, refl)
  fixed_leads saas only_wired = (refl, refl)
  fixed_leads saas mvp = (refl, refl)
  fixed_leads desktop everything = (refl, refl)
  fixed_leads desktop only_wired = (refl, refl)
  fixed_leads desktop mvp = (refl, refl)

  -- What a search adds stands before the commands that are there without one.
  commands-hits :
      (surface : Surface) (exposure : Exposure) (query : String) (hits : List Hit)
      → commands nav_label english t overview surface exposure query hits
        ≡ record_commands (routable_paths english surface exposure) query hits
          ++ commands nav_label english t overview surface exposure "" []
  unfolding commands record_commands routable_nodes
  commands-hits surface exposure query hits = refl

  -- On every frontend and for every exposure, whatever the language: each entry of the top bar, of the
  -- account menu and of the palette without a search leads to a route of that build, or to the builder
  -- of a new invoice; each route of the build is led to by one of them, unless it has a parameter or is
  -- a tab of the list of invoices; and a search, whatever it is and whatever it finds, adds to the
  -- palette commands that each lead to where a kind of records is shown, at a route of that build.
  pub led_to-routes :
      (surface : Surface) (exposure : Exposure) (query : String) (hits : List Hit)
      → (all
            (λ l. l === "/app/sales/invoices/new" || includes_text (hrefs surface exposure) l)
            (led_to surface exposure)
          ≡ true)
        × (all
              (λ l. is_inner l || includes_text (led_to surface exposure) l)
              (hrefs surface exposure)
            ≡ true)
        × ((found : List Command) × (commands nav_label english t overview surface exposure query
                hits
              ≡ found ++ commands nav_label english t overview surface exposure "" [])
            × All (IsMounted english surface exposure) found)
  led_to-routes surface exposure query hits =
      let (inside, reached) = fixed_leads surface exposure in
      (
        inside,
        reached,
        (
          record_commands (routable_paths english surface exposure) query hits,
          commands-hits surface exposure query hits,
          record_commands-IsMounted english surface exposure query hits,
        ),
      )
