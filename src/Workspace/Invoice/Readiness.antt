-- ===== src/Workspace/Invoice/Readiness.antt =====
-- frontend-react/src/workspace/readiness.ts. What it asks of the platform's texts and numbers is the
-- parameter Texts.
pub mod Gate
use Prim.Native.String
use billgen.Prelude.{
  ℕ, String, Bool, true, false, not, ◌&&◌, List, [], ◌∷◌, ◌++◌, Option, none, some, ◌===◌, ltb,
  if◌then◌else◌, filter, any, length,
}
use billgen.Workspace.Invoice.Draft.{DraftCustomer, DraftLine, InvoiceDraft, given}

pub record Texts : Type 0 where
  pub trim : String → String
  -- `Number(s) === 0`
  pub is_nought : String → Bool
  -- `s < t`
  pub less : String → String → Bool
  pub decimal : ℕ → String

pub data ReadinessSeverity : Type 0 where
  ok warning blocking : ReadinessSeverity

pub record ReadinessItem : Type 0 where
  pub key : String
  pub label : String
  pub severity : ReadinessSeverity
  pub detail : Option String

abbrev item : String → String → ReadinessSeverity → Option String → ReadinessItem
item key label severity detail = record {
  key = key;
  label = label;
  severity = severity;
  detail = detail;
}

abbrev customer_item : Option DraftCustomer → ReadinessItem
customer_item (some c) = item "customer" "Customer information" ok none
customer_item none =
    item "customer" "Customer information" blocking (some "Select or create a customer.")

abbrev lacks_vat : Option DraftCustomer → Bool
lacks_vat none = false
lacks_vat (some c) = c.is_business && not (given c.vat_number)

abbrev vat_item : Bool → ReadinessItem
vat_item true =
    item "vat" "VAT information" warning
      (some "This business customer has no VAT number; reverse charge and Peppol are unavailable.")
vat_item false = item "vat" "VAT information" ok none

abbrev dates_item : Bool → ReadinessItem
dates_item true = item "dates" "Dates" ok none
dates_item false = item "dates" "Dates" blocking (some "An issue date is required.")

abbrev due_items : Bool → List ReadinessItem
due_items true =
    item "due_before_issue" "Due date" blocking (some "The due date is before the issue date.") ∷ []
due_items false = []

abbrev lines_item : Bool → ReadinessItem
lines_item true = item "lines" "Line items" ok none
lines_item false = item "lines" "Line items" blocking (some "An invoice needs at least one line.")

abbrev payment_item : Bool → ReadinessItem
payment_item true = item "payment" "Payment information" ok none
payment_item false =
    item "payment" "Payment information" warning
      (some "No IBAN on the invoice — the customer has nowhere to pay.")

abbrev reference_item : Bool → ReadinessItem
reference_item true = item "reference" "Invoice number" ok none
reference_item false =
    item "reference" "Invoice number" ok (some "Assigned by BillGen when the invoice is issued.")

abbrev is_blocking : ReadinessSeverity → Bool
is_blocking blocking = true
is_blocking _ = false

unfoldable pub is_ready : List ReadinessItem → Bool
is_ready items = not (any (λ i. is_blocking i.severity) items)

module _ (texts : Texts) where
  abbrev pub due_before_issue : Option String → Option String → Bool
  due_before_issue (some due) (some issue) =
      given (some issue) && (given (some due) && texts.less due issue)
  due_before_issue _ _ = false

  abbrev pub is_usable : DraftLine → Bool
  is_usable line = not (texts.trim line.description === "")

  abbrev pub is_zero_priced : DraftLine → Bool
  is_zero_priced line = texts.is_nought line.unit_price

  abbrev zero_items : ℕ → List ReadinessItem
  zero_items n =
      if ltb 0 n
      then item "zero_priced" "Prices" warning
          (some (String.◌++◌ (texts.decimal n) " line(s) are priced at zero."))
        ∷ []
      else []

  unfoldable pub check_readiness : InvoiceDraft → List ReadinessItem
  check_readiness draft =
      let usable = filter is_usable draft.lines in
      customer_item draft.customer
      ∷ vat_item (lacks_vat draft.customer)
      ∷ dates_item (given draft.issue_date)
      ∷ (due_items (due_before_issue draft.due_date draft.issue_date)
          ++ (lines_item (ltb 0 (length usable))
              ∷ (zero_items (length (filter is_zero_priced usable))
                  ++ (payment_item (given draft.payment.iban)
                      ∷ reference_item (given draft.reference)
                      ∷ []))))
