-- ===== src/Builder.antt =====
-- frontend-react/src/panels/InvoiceBuilderPanel.tsx: the state of the panel, its handlers and the effect
-- that moves the lines to a new default rate. What the queries have answered so far is the record
-- Remote; the platform's numbers and `trim` are the record Numbers.
mod Price
pub mod Panel
pub mod Rates
pub mod Runs
mod Scenarios
use billgen.Client.Calls.Build.{◌&◌}
use billgen.Prelude.{
  ℕ, zero, suc, String, Bool, true, false, not, ◌&&◌, List, [], ◌∷◌, ◌++◌, Option, none, some,
  ◌===◌, if◌then◌else◌, find, any, all, map, length, get_elem?, ltb,
}
use billgen.Builder.Price.{trim_price}

-- `Number(a) === Number(b)`, `Number(a) > 0`, `Number.isNaN(Number(a))` and `a.trim()`.
pub record Numbers : Type 0 where
  pub same_number : String → String → Bool
  pub is_positive : String → Bool
  pub is_nan : String → Bool
  pub trim : String → String

pub record LineDraft : Type 0 where
  pub description : String
  pub quantity : String
  pub unit_price : String
  pub vat_rate : String
  pub product_id : Option String

pub record RateOption : Type 0 where
  pub rate : String
  pub label : String
  pub is_default : Bool

-- The answer of GET /vat-treatment, and a product of the catalog, as far as they are read.
pub record Treatment : Type 0 where
  pub category : String
  pub rate : String

pub record ProductResponse : Type 0 where
  pub id : String
  pub name : String
  pub unit_price : String
  pub default_vat_rate : Option String

pub record Remote : Type 0 where
  pub rates : List RateOption
  pub treatment : Option Treatment
  pub catalog : List ProductResponse

pub record InvoiceLineIn : Type 0 where
  pub description : String
  pub quantity : String
  pub unit_price : String
  pub product_id : Option String
  pub vat_category : String
  pub vat_rate : String

abbrev pub fallback_rate : String
fallback_rate = "21"

abbrev pub new_product : String
new_product = "__new__"

abbrev pub blank_line : LineDraft
blank_line = record {
  description = "";
  quantity = "1";
  unit_price = "";
  vat_rate = fallback_rate;
  product_id = none;
}

abbrev pub to_api_line : String → LineDraft → InvoiceLineIn
to_api_line category draft = record {
  description = draft.description;
  quantity = draft.quantity;
  unit_price = draft.unit_price;
  product_id = draft.product_id;
  vat_category = category;
  vat_rate = draft.vat_rate;
}

abbrev pub to_api_lines : List LineDraft → String → List InvoiceLineIn
to_api_lines drafts category = map (to_api_line category) drafts

-- What the answers imply.
abbrev pub category_of : Remote → String
category_of r = elim r.treatment [ none ↦ "S" | some t ↦ t.category ]

abbrev pub standard_default_rate : Remote → String
standard_default_rate r = elim (find (λ o. o.is_default) r.rates) [
  | none ↦ fallback_rate
  | some o ↦ o.rate
]

abbrev pub rate_options : Remote → List RateOption
rate_options r = elim r.rates [
  | [] ↦ record { rate = fallback_rate; label = "21%"; is_default = true } ∷ []
  | o ∷ os ↦ o ∷ os
]

-- `line.map((line, i) => (i === index ? { ...line, ...patch } : line))`
abbrev pub set_line : ℕ → (LineDraft → LineDraft) → List LineDraft → List LineDraft
set_line index patch [] = []
set_line zero patch (l ∷ ls) = patch l ∷ ls
set_line (suc index) patch (l ∷ ls) = l ∷ set_line index patch ls

abbrev pub without : ℕ → List LineDraft → List LineDraft
without index [] = []
without zero (l ∷ ls) = ls
without (suc index) (l ∷ ls) = l ∷ without index ls

module _ (numbers : Numbers) where
  abbrev pub served_spelling : Remote → String → String
  served_spelling r rate = elim (find (λ o. numbers.same_number o.rate rate) r.rates) [
    | none ↦ rate
    | some o ↦ o.rate
  ]

  abbrev pub default_rate : Remote → String
  default_rate r = elim r.treatment [
    | none ↦ standard_default_rate r
    | some t ↦ served_spelling r t.rate
  ]

  unfoldable pub options_for : Remote → String → List RateOption
  options_for r rate =
      if any (λ o. o.rate === rate) (rate_options r)
      then rate_options r
      else rate_options r ++ (record { rate = rate; label = rate & "%"; is_default = false } ∷ [])

  abbrev pub is_blank : String → Bool
  is_blank s = numbers.trim s === ""

  unfoldable pub lines_are_valid : List LineDraft → Bool
  lines_are_valid drafts =
      ltb 0 (length drafts)
      && all
          (λ d.
            (not (is_blank d.description) && numbers.is_positive d.quantity)
            && (not (is_blank d.unit_price) && not (numbers.is_nan d.unit_price)))
          drafts

  -- The rate that a line takes from a product.
  abbrev pub own_rate : Remote → ProductResponse → String
  own_rate r p = elim p.default_vat_rate [ none ↦ default_rate r | some v ↦ v ]

  abbrev pub product_rate : Remote → ProductResponse → String
  product_rate r p =
      if category_of r === "S" then served_spelling r (own_rate r p) else default_rate r

  abbrev pub filled : Remote → ProductResponse → LineDraft → LineDraft
  filled r p l = record l {
    product_id = some p.id;
    description = p.name;
    unit_price = trim_price p.unit_price;
    vat_rate = product_rate r p;
  }
