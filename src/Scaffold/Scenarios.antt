-- ===== src/Scaffold/Scenarios.antt =====
-- The theorems on the scaffold, on builds of the product; texts are their own keys.
use billgen.Prelude.{
  String, true, ◌||◌, List, [], ◌∷◌, ◌++◌, All, none, some, ◌≡◌, refl, all, filter, ◌===◌,
}
use billgen.Scaffold.Ia.{
  saas, desktop, mvp, everything, includes_text, ia_for, is_exposed, ia_trail, find_by_path,
}
use billgen.Scaffold.Ia.Pruned.{leaves, reached, ia_for-leaves}
use billgen.Scaffold.Ia.Trail.{last_of, info_of, IsTrail, ia_trail_lem}
use billgen.Scaffold.Spec.{ia, mvp_surface}
use billgen.Scaffold.Surfaces.{nodes_distinct}
use billgen.Scaffold.Router.Mounted.{shown, locations, shows_page, redirects_end}
use billgen.Scaffold.Shell.Reach.{hrefs, led_to, is_inner, led_to-routes}
use billgen.Scaffold.Shell.Hits.{IsMounted}
use billgen.Scaffold.Shell.{Hit, Command, commands}

abbrev same : String → String
same text = text

abbrev drafts : String
drafts = "sales/invoices/draft"

ia_for-leaves_example :
    leaves (ia_for mvp_surface (ia same) saas mvp)
    ≡ filter (λ n. is_exposed mvp_surface n mvp) (reached saas (ia same))
ia_for-leaves_example = ia_for-leaves mvp_surface saas mvp (ia same) (nodes_distinct same).0 refl

ia_trail_lem_example :
    (last_of (ia_trail (ia same) drafts saas)
      ≡ info_of (find_by_path mvp_surface (ia same) drafts saas))
    × IsTrail drafts saas (ia same) (ia_trail (ia same) drafts saas)
ia_trail_lem_example = ia_trail_lem mvp_surface drafts saas (ia same) (nodes_distinct same).0

redirects_end_example :
    all (λ l. shows_page (shown same desktop everything l)) (locations same desktop everything)
    ≡ true
redirects_end_example = redirects_end same desktop everything

abbrev a_hit : Hit
a_hit = record {
  hit_kind = "invoice";
  id = "17";
  title = "2026-001";
  subtitle = none;
  status = some "issued";
}

led_to-routes_example :
    let led = led_to same same same same "/app" saas mvp in
    let routes = hrefs same same same same "/app" saas mvp in
    (all (λ l. l === "/app/sales/invoices/new" || includes_text routes l) led ≡ true)
    × (all (λ l. is_inner l || includes_text led l) routes ≡ true)
    × ((found : List Command) × (commands same same same same saas mvp "2026" (a_hit ∷ [])
          ≡ found ++ commands same same same same saas mvp "" [])
        × All (IsMounted same saas mvp) found)
led_to-routes_example = led_to-routes same same same same "/app" saas mvp "2026" (a_hit ∷ [])
