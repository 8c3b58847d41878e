-- ===== src/Workspace/Invoice/Items.antt =====
-- The lines of a draft, as InvoiceItemsEditor.tsx and EditItemDrawer.tsx of
-- frontend-react/src/workspace change them.
pub mod Lookup
use billgen.Prelude.{
  String, Bool, true, false, not, List, [], ◌∷◌, ◌++◌, map, Option, none, some, ◌===◌,
  if◌then◌else◌, filter,
}
use billgen.Workspace.Invoice.Draft.{DraftLine, empty_line}

pub record CatalogItem : Type 0 where
  pub id : String
  pub name : String
  pub unit_price : String
  pub vat_rate : String
  pub unit : Option String

-- `addFromCatalog`.
abbrev pub catalog_line : String → CatalogItem → DraftLine
catalog_line key product = record (empty_line key) {
  description = product.name;
  unit_price = product.unit_price;
  vat_rate = product.vat_rate;
  unit = product.unit;
  product_id = some product.id;
}

unfoldable pub add_line : DraftLine → List DraftLine → List DraftLine
add_line line lines = lines ++ (line ∷ [])

-- What a field of the drawer changes; the first three end the link to the catalog.
pub data LineChange : Type 0 where
  set_description set_unit_price set_vat_rate : String → LineChange
  set_quantity set_unit set_discount_percent : String → LineChange

abbrev pub patched : LineChange → DraftLine → DraftLine
patched (set_description v) l = record l { description = v; product_id = none }
patched (set_unit_price v) l = record l { unit_price = v; product_id = none }
patched (set_vat_rate v) l = record l { vat_rate = v; product_id = none }
patched (set_quantity v) l = record l { quantity = v }
patched (set_unit v) l = record l { unit = some v }
patched (set_discount_percent v) l = record l { discount_percent = some v }

unfoldable pub change_line : DraftLine → List DraftLine → List DraftLine
change_line line lines =
    map (λ existing. if existing.key === line.key then line else existing) lines

unfoldable pub remove_line : String → List DraftLine → List DraftLine
remove_line key lines = filter (λ line. not (line.key === key)) lines
