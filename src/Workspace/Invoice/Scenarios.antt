-- ===== src/Workspace/Invoice/Scenarios.antt =====
-- The draft at concrete inputs.
use mathlib.Core.List.{Perm}
use mathlib.Core.List.Perm
use billgen.Prelude.{
  ℕ, ◌+◌, ◌-◌, ◌*◌, ◌/◌, true, false, not, any, ◌&&◌, List, [], ◌∷◌, ◌++◌, none, some, ◌≡◌, refl,
  ◌===◌, ◌==◌, if◌then◌else◌,
}
use billgen.Workspace.Invoice.Draft.{
  DraftCustomer, DraftLine, InvoiceDraft, empty_draft, empty_line, given, review_step,
}
use billgen.Workspace.Invoice.Readiness.{
  Texts, due_before_issue, is_usable, check_readiness, is_ready,
}
use billgen.Workspace.Invoice.Readiness.Gate.{is_there, check_readiness_lem}
use billgen.Workspace.Invoice.Items.{add_line, change_line, set_description}
use billgen.Workspace.Invoice.Composer.{
  Composer, Action, open_composer, act, run, continue_pressed, customer_selected, item_added,
  issue_date, details_changed, line_opened, line_changed, review_continue,
}
use billgen.Workspace.Invoice.Composer.Delivery.{delivering-was_ready}
use billgen.Workspace.Invoice.Totals.{Doubles, VatSummaryRow, compute_totals, factor_of}
use billgen.Workspace.Invoice.Totals.Groups.{row_at, are_distinct, rate_row, compute_totals-groups}

-- Of the dates below one pair is in order.
abbrev plain : Texts
plain = record {
  trim = λ s. s;
  is_nought = λ s. s === "0";
  less = λ s t. s === "2026-01-01" && t === "2026-02-01";
  decimal = λ n. "n";
}

abbrev buyer : DraftCustomer
buyer = record {
  id = none;
  name = "Client";
  vat_number = none;
  email = none;
  address_line = none;
  postal_code = none;
  city = none;
  country = none;
  is_business = true;
  payment_terms_days = none;
}

abbrev work : DraftLine
work = record (empty_line "line-1") { description = "Work"; unit_price = "100" }

abbrev books : DraftLine
books = record (empty_line "line-2") { description = "Books"; vat_rate = "6" }

abbrev begun : InvoiceDraft
begun = empty_draft "EUR" "fr"

abbrev full : InvoiceDraft
full = record begun {
  customer = some buyer;
  issue_date = some "2026-02-01";
  lines = work ∷ books ∷ [];
}

check_readiness_lem_example : is_ready (check_readiness plain full) ≡ (
    (is_there full.customer && given full.issue_date)
    && (not (due_before_issue plain full.due_date full.issue_date)
        && any (is_usable plain) full.lines))
check_readiness_lem_example = check_readiness_lem plain full

late_test : is_ready (check_readiness plain (record full { due_date = some "2026-01-01" })) ≡ false
unfolding is_ready check_readiness
late_test = refl

abbrev composed : List Action
composed =
    customer_selected (some buyer)
    ∷ continue_pressed
    ∷ item_added "line-1"
    ∷ line_opened "line-1"
    ∷ line_changed (set_description "Work")
    ∷ continue_pressed
    ∷ details_changed (issue_date (some "2026-02-01"))
    ∷ continue_pressed
    ∷ review_continue
    ∷ []

delivering-was_ready_example :
    (before after : List Action) × (composed ≡ before ++ (review_continue ∷ after))
    × (is_ready (check_readiness plain (run plain [] before (open_composer begun)).draft) ≡ true)
unfolding open_composer run act check_readiness is_ready add_line change_line
delivering-was_ready_example =
    delivering-was_ready plain [] composed (open_composer begun) refl refl

abbrev delivered : Composer
delivered = record {
  draft = full;
  step = review_step;
  creating_customer = false;
  editing_line_key = none;
  line = none;
  delivering = true;
}

-- Whole numbers stand in for the platform's.
abbrev whole : Doubles ℕ
whole = record {
  nought = 0;
  one = 1;
  hundred = 100;
  plus = λ a b. a + b;
  minus = λ a b. a - b;
  times = λ a b. a * b;
  over = λ a b. a / b;
  is_nought = λ a. a == 0;
  parse = λ s. if s === "21" then 21 else 1;
  is_finite = λ a. true;
}

abbrev unsorted :
    (VatSummaryRow ℕ → VatSummaryRow ℕ → ℕ) → List (VatSummaryRow ℕ) → List (VatSummaryRow ℕ)
unsorted order rows = rows

compute_totals-groups_example :
    (rows : List (VatSummaryRow ℕ)) × Perm
      (compute_totals whole unsorted (work ∷ books ∷ []) "0").vat_summary
      rows
    × (are_distinct rows ≡ true)
    × (row_at "6" rows
        ≡ rate_row whole "6" (factor_of whole (work ∷ books ∷ []) "0") (work ∷ books ∷ []))
compute_totals-groups_example =
    compute_totals-groups whole unsorted (work ∷ books ∷ []) "0" "6" (λ order rows. Perm.refl rows)
