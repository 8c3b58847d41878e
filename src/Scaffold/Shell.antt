-- ===== src/Scaffold/Shell.antt =====
-- frontend-react/src/shell/ProductShell.tsx: the links of the top bar, the account menu and the command
-- palette, as data: an action is the location that it navigates to. `nav_label` gives the texts of the
-- interface's language and `english` the English ones, `t` and `overview` the other texts. Icons, the
-- markers of unfinished areas and the state of the dialogs are not modelled.
pub mod Hits
pub mod Reach
use text.Mathlib.Text.{starts_with}
use billgen.Client.Calls.Build.{◌&◌}
use billgen.Prelude.{
  String, Bool, true, false, not, ◌&&◌, ◌||◌, List, [], ◌∷◌, ◌++◌, Option, none, some, ◌===◌,
  if◌then◌else◌, filter, map, any,
}
use billgen.Scaffold.Ia.{
  BackendStatus, wired, partial, unbuilt, IaNode, IaTree, info, children, trees, Surface, Exposure,
  is_everything, path_is, ia_for, is_nav_destination, routable_nodes,
}
use billgen.Scaffold.Spec.{ia, mvp_surface}
use billgen.Scaffold.Router.{or_index, to_href, has_colon}

-- `value ?? ""`
abbrev or_blank : Option String → String
or_blank none = ""
or_blank (some s) = s

abbrev status_suffix : BackendStatus → String
status_suffix wired = ""
status_suffix partial = " · partial"
status_suffix unbuilt = " · no backend"

-- The word of a status.
abbrev status_word : BackendStatus → String
status_word wired = "wired"
status_word partial = "partial"
status_word unbuilt = "none"

-- A row of `HIT_DESTINATION`.
pub record Destination : Type 0 where
  pub ia_path : String
  pub href : String → String
  pub section : String
  pub is_record : Bool

abbrev pub hit_destination : String → Option Destination
hit_destination kind =
    if kind === "invoice"
    then some (record {
      ia_path = "sales/invoices/id/:invoiceId";
      href = λ id. "/app/sales/invoices/id/" & id;
      section = "Invoices";
      is_record = true;
    })
    else if kind === "client"
    then some (record {
      ia_path = "customers/clients/:clientId";
      href = λ id. "/app/customers/clients/" & id;
      section = "Clients";
      is_record = true;
    })
    else if kind === "quote"
    then some (record {
      ia_path = "sales/quotes";
      href = λ id. "/app/sales/quotes";
      section = "Quotes";
      is_record = false;
    })
    else if kind === "credit_note"
    then some (record {
      ia_path = "sales/credit-notes";
      href = λ id. "/app/sales/credit-notes";
      section = "Credit notes";
      is_record = false;
    })
    else if kind === "product"
    then some (record {
      ia_path = "catalog/products";
      href = λ id. "/app/catalog/products";
      section = "Products";
      is_record = false;
    })
    else none

-- A hit of the search, and a command of the palette.
pub record Hit : Type 0 where
  pub hit_kind : String
  pub id : String
  pub title : String
  pub subtitle : Option String
  pub status : Option String

pub record Command : Type 0 where
  pub key : String
  pub label : String
  pub section : String
  pub hint : Option String
  pub keywords : String
  pub target : String

abbrev pub record_command : String → Hit → Destination → Command
record_command palette_query hit d = record {
  key = "hit:" & (hit.hit_kind & (":" & hit.id));
  label = hit.title;
  section = d.section;
  hint = if d.is_record then hit.subtitle else some "opens the list";
  keywords = palette_query & (" " & (or_blank hit.subtitle & (" " & or_blank hit.status)));
  target = d.href hit.id;
}

-- `routablePaths.has(iaPath)`.
abbrev pub mounts : List (Option String) → String → Bool
mounts routable_paths path = any (path_is path) routable_paths

unfoldable pub record_commands : List (Option String) → String → List Hit → List Command
record_commands routable_paths palette_query [] = []
record_commands routable_paths palette_query (hit ∷ hits) =
    let rest = record_commands routable_paths palette_query hits in
    elim (hit_destination hit.hit_kind) [
      | none ↦ rest
      | some d ↦
          if mounts routable_paths d.ia_path
          then record_command palette_query hit d ∷ rest
          else rest
    ]

-- An entry of a menu, and where it leads.
pub record NavItem : Type 0 where
  pub key : String
  pub label : String
  pub target : String

-- A link of the top bar: it navigates, or opens a menu.
pub data LinkAction : Type 0 where
  opens : String → LinkAction
  items : List NavItem → LinkAction

pub record TopNavLink : Type 0 where
  pub key : String
  pub label : String
  pub active : Bool
  pub action : LinkAction

pub data MenuEntry : Type 0 where
  entry : NavItem → MenuEntry
  separator : String → MenuEntry
  act : String → String → MenuEntry

abbrev pub is_primary : IaTree → Bool
is_primary t = elim (info t).primary [ none ↦ false | some b ↦ b ]

-- `node.path !== undefined && !node.path.includes_text(":")`.
abbrev pub is_palette_entry : IaTree → Bool
is_palette_entry t = elim (info t).path [ none ↦ false | some p ↦ not (has_colon p) ]

abbrev pub nav_item : (String → String) → IaTree → NavItem
nav_item nav_label u = record {
  key = (info u).key;
  label = nav_label (info u).key;
  target = to_href (info u).path;
}

-- The first entry of a section's menu: its own page.
abbrev pub overview_item : (String → String) → (String → String) → IaTree → NavItem
overview_item nav_label overview section = record {
  key = (info section).key & ":overview";
  label = overview (nav_label (info section).key);
  target = to_href (info section).path;
}

module _ (nav_label english t : String → String) (overview : String → String) where
  -- The menu of a section: its own page, and the pages below it.
  abbrev pub menu_of : IaTree → List IaTree → LinkAction
  menu_of section [] = opens (to_href (info section).path)
  menu_of section (c ∷ cs) =
      items (overview_item nav_label overview section ∷ map (nav_item nav_label) (c ∷ cs))

  abbrev pub top_nav_link : String → IaTree → TopNavLink
  top_nav_link pathname section =
      let to = to_href (info section).path in
      record {
        key = (info section).key;
        label = nav_label (info section).key;
        active =
            if or_index (info section).path === ""
            then pathname === "/app"
            else starts_with pathname to;
        action = menu_of section (filter is_nav_destination (trees (children section)));
      }

  unfoldable pub links : String → Surface → Exposure → List TopNavLink
  unfolding ia_for is_nav_destination
  links pathname surface exposure =
      map (top_nav_link pathname)
        (filter is_primary (trees (ia_for mvp_surface (ia english) surface exposure)))

  unfoldable pub account_items : Bool → Surface → Exposure → List MenuEntry
  unfolding ia_for
  account_items has_logout surface exposure =
      map (λ u. entry (nav_item nav_label u))
        (filter (λ u. not (is_primary u))
          (trees (ia_for mvp_surface (ia english) surface exposure)))
      ++ (separator "sep-help"
          ∷ act "tour" (t "tour.menu")
          ∷ (if has_logout then separator "sep" ∷ act "logout" (t "account.signOut") ∷ [] else []))

  abbrev pub go_to_command : Exposure → IaTree → IaTree → String → Command
  go_to_command exposure section n place = record {
    key = (info section).key & (":" & (info n).key);
    label =
        nav_label (info n).key
        & (if is_everything exposure then status_suffix (info n).status else "");
    section = place;
    hint = none;
    keywords =
        nav_label (info section).key
        & (" "
            & (nav_label (info n).key
                & (" "
                    & ((info section).label
                        & (" "
                            & ((info n).label
                                & (" "
                                    & (or_blank (info n).path
                                        & (" " & status_word (info n).status)))))))));
    target = to_href (info n).path;
  }

  -- The commands of a section: its own, under `palette.sectionGoTo`, and its children's, under its
  -- label.
  abbrev pub section_commands : Exposure → IaTree → List Command
  section_commands exposure section =
      map (λ n. go_to_command exposure section n (t "palette.sectionGoTo"))
        (filter is_palette_entry (section ∷ []))
      ++ map (λ n. go_to_command exposure section n (nav_label (info section).key))
          (filter is_palette_entry (trees (children section)))

  abbrev pub all_section_commands : Exposure → List IaTree → List Command
  all_section_commands exposure [] = []
  all_section_commands exposure (s ∷ ss) =
      section_commands exposure s ++ all_section_commands exposure ss

  abbrev pub new_invoice : Command
  new_invoice = record {
    key = "new-invoice";
    label = t "invoice.title";
    section = t "palette.sectionCreate";
    hint = none;
    keywords = "new invoice bill create facture";
    target = "/app/sales/invoices/new";
  }

  unfoldable pub commands : Surface → Exposure → String → List Hit → List Command
  unfolding routable_nodes record_commands ia_for
  commands surface exposure palette_query hits =
      record_commands
        (map (λ n. (info n).path) (routable_nodes mvp_surface (ia english) surface exposure))
        palette_query hits
      ++ (new_invoice
          ∷ all_section_commands exposure
              (trees (ia_for mvp_surface (ia english) surface exposure)))
