-- ===== src/Workspace/Invoice/Draft.antt =====
-- frontend-react/src/workspace/types.ts. The random key of a new line is an argument.
use billgen.Prelude.{ℕ, String, Bool, false, not, List, [], ◌∷◌, Option, none, some, ◌===◌}

pub record DraftCustomer : Type 0 where
  pub id : Option String
  pub name : String
  pub vat_number : Option String
  pub email : Option String
  pub address_line : Option String
  pub postal_code : Option String
  pub city : Option String
  pub country : Option String
  pub is_business : Bool
  pub payment_terms_days : Option ℕ

-- `product_id` is none for undefined and for null.
pub record DraftLine : Type 0 where
  pub key : String
  pub description : String
  pub quantity : String
  pub unit : Option String
  pub unit_price : String
  pub vat_rate : String
  pub vat_category : Option String
  pub discount_percent : Option String
  pub product_id : Option String

pub record DraftReferences : Type 0 where
  pub purchase_order : Option String
  pub customer_reference : Option String
  pub project_reference : Option String

pub record DraftPayment : Type 0 where
  pub terms_days : Option ℕ
  pub iban : Option String
  pub bic : Option String
  pub structured_communication : Option String

pub record InvoiceDraft : Type 0 where
  pub customer : Option DraftCustomer
  pub reference : Option String
  pub issue_date : Option String
  pub due_date : Option String
  pub currency : String
  pub language : String
  pub lines : List DraftLine
  pub references : DraftReferences
  pub payment : DraftPayment
  pub notes : Option String
  pub terms : Option String
  pub internal_note : Option String
  pub template_id : Option String

pub data WorkspaceStep : Type 0 where
  customer_step items_step details_step review_step : WorkspaceStep

abbrev pub workspace_steps : List WorkspaceStep
workspace_steps = customer_step ∷ items_step ∷ details_step ∷ review_step ∷ []

abbrev pub empty_draft : String → String → InvoiceDraft
empty_draft currency language = record {
  customer = none;
  reference = none;
  issue_date = none;
  due_date = none;
  currency = currency;
  language = language;
  lines = [];
  references = record {
    purchase_order = none;
    customer_reference = none;
    project_reference = none;
  };
  payment = record { terms_days = none; iban = none; bic = none; structured_communication = none };
  notes = none;
  terms = none;
  internal_note = none;
  template_id = none;
}

abbrev pub empty_line : String → DraftLine
empty_line key = record {
  key = key;
  description = "";
  quantity = "1";
  unit = none;
  unit_price = "0";
  vat_rate = "21";
  vat_category = none;
  discount_percent = none;
  product_id = none;
}

-- An optional text as a condition.
abbrev pub given : Option String → Bool
given none = false
given (some s) = not (s === "")
