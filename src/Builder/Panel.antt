-- ===== src/Builder/Panel.antt =====
-- The state of frontend-react/src/panels/InvoiceBuilderPanel.tsx and its handlers. What happens is an
-- Action; the answers of the queries may change between two of them.
use billgen.Prelude.{
  ℕ, String, Bool, true, false, not, ◌&&◌, List, [], ◌∷◌, ◌++◌, Option, none, some, ◌===◌,
  if◌then◌else◌, find, map, length, get_elem?, ltb,
}
use billgen.Builder.{
  Numbers, LineDraft, ProductResponse, Remote, InvoiceLineIn, new_product, blank_line, to_api_lines,
  category_of, set_line, without, served_spelling, default_rate, lines_are_valid, is_blank, filled,
}

-- The panel: `applied_default` is the ref of the effect.
pub record Builder : Type 0 where
  pub client_id : String
  pub lines : List LineDraft
  pub comments : String
  pub draft_saved : Bool
  pub new_item_for : Option ℕ
  pub new_name : String
  pub new_price : String
  pub new_rate : String
  pub applied_default : String

-- The edits of a line, and what can happen to the panel. An edit of the rate carries one of the
-- options of its line. `item_created` and `invoice_created` are the answers to the two requests; the
-- first fills a line by what the queries had answered when it was asked.
pub data LineEdit : Type 0 where
  description_typed quantity_typed price_typed rate_chosen : String → LineEdit

pub data Action : Type 0 where
  client_chosen comments_typed name_typed new_price_typed new_rate_chosen : String → Action
  line_edited : ℕ → LineEdit → Action
  product_picked : ℕ → String → Action
  line_removed : ℕ → Action
  line_added new_item_closed invoice_created answers_changed : Action
  item_created : Remote → ProductResponse → Action

abbrev pub edited : LineEdit → LineDraft → LineDraft
edited (description_typed v) l = record l { description = v }
edited (quantity_typed v) l = record l { quantity = v }
edited (price_typed v) l = record l { unit_price = v }
edited (rate_chosen v) l = record l { vat_rate = v }

pub record InvoiceBody : Type 0 where
  pub company_id : String
  pub client_id : String
  pub lines : List InvoiceLineIn
  pub comments : Option String

pub record ProductBody : Type 0 where
  pub company_id : String
  pub name : String
  pub unit_price : String
  pub default_vat_rate : String

-- The effect on a new default rate.
abbrev pub moved : String → String → LineDraft → LineDraft
moved previous rate l = if l.vat_rate === previous then record l { vat_rate = rate } else l

module _ (numbers : Numbers) where
  abbrev pub fill_from_product : Remote → ℕ → ProductResponse → Builder → Builder
  fill_from_product r index p s = record s { lines = set_line index (filled numbers r p) s.lines }

  -- The overlay for a new item, seeded from its line.
  abbrev pub seeded : Remote → ℕ → Option LineDraft → Builder → Builder
  seeded r index none s = s
  seeded r index (some l) s = record s {
    new_name = l.description;
    new_price = l.unit_price;
    new_rate = served_spelling numbers r l.vat_rate;
    new_item_for = some index;
  }

  abbrev pub open_new_item : Remote → ℕ → Builder → Builder
  open_new_item r index s = seeded r index (get_elem? s.lines index) s

  unfoldable pub pick_product : Remote → ℕ → String → Builder → Builder
  pick_product r index product_id s =
      if product_id === ""
      then record s { lines = set_line index (λ l. record l { product_id = none }) s.lines }
      else if product_id === new_product
      then open_new_item r index s
      else elim (find (λ p. p.id === product_id) r.catalog) [
        | none ↦ s
        | some p ↦ fill_from_product r index p s
      ]

  unfoldable pub settle : Remote → Builder → Builder
  settle r s = if s.applied_default === default_rate numbers r then s else record s {
    applied_default = default_rate numbers r;
    lines = map (moved s.applied_default (default_rate numbers r)) s.lines;
  }

  -- The new item fills the line that its overlay was opened for.
  abbrev pub dropped : Remote → Option ℕ → ProductResponse → Builder → Builder
  dropped r none p s = s
  dropped r (some index) p s = record (fill_from_product r index p s) { new_item_for = none }

  -- What happens in the panel, given the answers so far. A line is removed only while there is another,
  -- and an item is created only while its overlay is open.
  unfoldable pub act : Remote → Action → Builder → Builder
  unfolding pick_product
  act r (client_chosen id) s = record s { client_id = id }
  act r (comments_typed v) s = record s { comments = v }
  act r (name_typed v) s = record s { new_name = v }
  act r (new_price_typed v) s = record s { new_price = v }
  act r (new_rate_chosen v) s = record s { new_rate = v }
  act r (line_edited index e) s = record s { lines = set_line index (edited e) s.lines }
  act r (product_picked index id) s = pick_product r index id s
  act r (line_removed index) s =
      if ltb 1 (length s.lines) then record s { lines = without index s.lines } else s
  act r line_added s = record s {
    lines = s.lines ++ (record blank_line { vat_rate = default_rate numbers r } ∷ []);
  }
  act r new_item_closed s = record s { new_item_for = none }
  act r (item_created asked p) s = dropped asked s.new_item_for p s
  act r invoice_created s = record s {
    draft_saved = true;
    client_id = "";
    lines = blank_line ∷ [];
    comments = "";
  }
  act r answers_changed s = s

  -- A run: each action with the answers at its time, and the effect of the render that follows.
  unfoldable pub run : List (Remote × Action) → Builder → Builder
  unfolding act settle
  run [] s = s
  run ((r, a) ∷ later) s = run later (settle r (act r a s))

  unfoldable pub open_panel : Remote → Builder
  open_panel r = record {
    client_id = "";
    lines = blank_line ∷ [];
    comments = "";
    draft_saved = false;
    new_item_for = none;
    new_name = "";
    new_price = "";
    new_rate = "";
    applied_default = default_rate numbers r;
  }

  -- The body of `handleCreate`, where its button is enabled, and the body of `submitNewItem`.
  unfoldable pub create_body : String → Remote → Builder → Option InvoiceBody
  unfolding lines_are_valid
  create_body company_id r s =
      if lines_are_valid numbers s.lines && not (s.client_id === "")
      then some (record {
        company_id = company_id;
        client_id = s.client_id;
        lines = to_api_lines s.lines (category_of r);
        comments = if s.comments === "" then none else some s.comments;
      })
      else none

  unfoldable pub new_item_body : String → Remote → Builder → Option ProductBody
  new_item_body company_id r s = elim s.new_item_for [
    | none ↦ none
    | some index ↦
        if is_blank numbers s.new_name
        then none
        else if is_blank numbers s.new_price
        then none
        else some (record {
          company_id = company_id;
          name = numbers.trim s.new_name;
          unit_price = numbers.trim s.new_price;
          default_vat_rate = if s.new_rate === "" then default_rate numbers r else s.new_rate;
        })
  ]
