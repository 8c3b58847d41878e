-- ===== src/History.antt =====
-- frontend-react/src/panels/HistoryPanel.tsx: the invoices of a company, and what may be done with the
-- one whose sheet is open.
pub mod Panel
pub mod Asked
pub mod Answers
pub mod Pages
pub mod Covered
mod Scenarios
use billgen.Prelude.{
  ℕ, String, Bool, true, false, not, ◌&&◌, ◌||◌, List, [], ◌∷◌, Option, none, some, ◌===◌, find,
}
use billgen.Json.{Json, text, obj, field, end}
use billgen.Queries.Status.{MutationStatus, idle, is_pending, is_error}
use billgen.Queries.Writes.{
  Mutation, use_issue_invoice, use_delete_invoice, use_void_invoice, use_issue_credit_note,
  use_record_payment,
}
use billgen.Detail.{
  ActionKind, issue, delete, void, credit_note, payment, is_draft, is_voided, credit_body,
}

-- What is read of an invoice of the list.
pub record InvoiceRow : Type 0 where
  pub id : String
  pub reference : Option String
  pub client_id : String
  pub issue_date : String
  pub due_date : Option String
  pub total_ttc : String
  pub status : String

-- The action that a dialog is open for, and the invoice that it was opened on.
pub record PendingAction : Type 0 where
  pub kind : ActionKind
  pub invoice_id : String
  pub named : String

pub record ActionForm : Type 0 where
  pub reason : String
  pub amount : String
  pub paid_on : Option String

pub record ListMutations : Type 0 where
  pub void_invoice : MutationStatus
  pub issue_invoice : MutationStatus
  pub delete_invoice : MutationStatus
  pub issue_credit_note : MutationStatus
  pub record_payment : MutationStatus

pub data Direction : Type 0 where
  asc desc : Direction

pub record TableSort : Type 0 where
  pub key : String
  pub direction : Direction

pub record HistoryState : Type 0 where
  pub action : Option PendingAction
  pub form : ActionForm
  pub mutations : ListMutations
  pub selected_id : Option String
  pub sort : TableSort
  pub page : ℕ

abbrev pub blank_action : ActionForm
blank_action = record { reason = ""; amount = ""; paid_on = none }

abbrev pub open_history : HistoryState
open_history = record {
  action = none;
  form = blank_action;
  mutations = record {
    void_invoice = idle;
    issue_invoice = idle;
    delete_invoice = idle;
    issue_credit_note = idle;
    record_payment = idle;
  };
  selected_id = none;
  sort = record { key = "issue_date"; direction = desc };
  page = 1;
}

-- A call of `mutate`: the kind of the action, the invoice, and what its form says.
pub data ListRequest : Type 0 where
  issues_row deletes_row : String → ListRequest
  voids_row credits_row : String → String → ListRequest
  pays_row : String → String → String → ListRequest

abbrev pub paid_body : String → String → String → Json
paid_body id amount paid_on = obj (
    field "invoice_id" (text id)
      (field "amount" (text amount) (field "paid_on" (text paid_on) end)))

abbrev pub row_mutation : ListRequest → Mutation
row_mutation (issues_row id) = use_issue_invoice id
row_mutation (deletes_row id) = use_delete_invoice id
row_mutation (voids_row id reason) = use_void_invoice id reason
row_mutation (credits_row id reason) = use_issue_credit_note (credit_body id reason)
row_mutation (pays_row id amount paid_on) = use_record_payment (paid_body id amount paid_on)

-- The buttons of the sheet for an invoice of this status.
unfoldable pub sheet_offers : String → ActionKind → Bool
sheet_offers status issue = is_draft status
sheet_offers status delete = is_draft status
sheet_offers status credit_note = not (is_draft status) && not (is_voided status)
sheet_offers status void = not (is_draft status) && not (is_voided status)
sheet_offers status payment =
    not (is_draft status) && not (is_voided status) && not (status === "paid")

abbrev pub has_id : Option String → InvoiceRow → Bool
has_id none row = false
has_id (some id) row = row.id === id

abbrev pub selected : List InvoiceRow → HistoryState → Option InvoiceRow
selected rows s = find (has_id s.selected_id) rows

abbrev pub run_status : ActionKind → ListMutations → MutationStatus
run_status issue m = m.issue_invoice
run_status delete m = m.delete_invoice
run_status void m = m.void_invoice
run_status credit_note m = m.issue_credit_note
run_status payment m = m.record_payment

abbrev pub with_run : ActionKind → MutationStatus → ListMutations → ListMutations
with_run issue t m = record m { issue_invoice = t }
with_run delete t m = record m { delete_invoice = t }
with_run void t m = record m { void_invoice = t }
with_run credit_note t m = record m { issue_credit_note = t }
with_run payment t m = record m { record_payment = t }

unfoldable pub list_pending : ListMutations → Bool
list_pending m =
    is_pending m.void_invoice
    || is_pending m.issue_invoice
    || is_pending m.delete_invoice
    || is_pending m.issue_credit_note
    || is_pending m.record_payment

unfoldable pub list_failed : ListMutations → Bool
list_failed m =
    is_error m.void_invoice
    || is_error m.issue_invoice
    || is_error m.delete_invoice
    || is_error m.issue_credit_note
    || is_error m.record_payment
