-- ===== src/Detail.antt =====
-- frontend-react/src/panels/InvoiceDetailPanel.tsx: its state, and what it may do with an invoice.
pub mod Panel
pub mod Guards
pub mod Fields
pub mod Running
pub mod Forms
pub mod Complete
pub mod Failures
pub mod Filename
pub mod Download
pub mod Outcome
pub mod Rail
pub mod Lifecycle
mod Scenarios
use billgen.Prelude.{
  String, Bool, true, false, not, ◌&&◌, ◌||◌, List, [], ◌∷◌, Option, none, some, ◌===◌, any,
}
use billgen.Json.{text_or_null, Json, text, null, obj, field, end}
use billgen.Queries.Status.{MutationStatus, idle, pending, succeeded, failed, is_pending, is_error}
use billgen.Queries.Writes.{
  Mutation, use_issue_invoice, use_delete_invoice, use_void_invoice, use_issue_credit_note,
  use_record_payment, use_duplicate_invoice,
}

abbrev pub payment_methods : List String
payment_methods = "bank_transfer" ∷ "card" ∷ "cash" ∷ "check" ∷ "other" ∷ []

pub data ActionKind : Type 0 where
  issue delete void credit_note payment : ActionKind

-- What is read of the invoice.
pub record InvoiceResponse : Type 0 where
  pub id : String
  pub reference : Option String
  pub status : String

abbrev pub is_draft : String → Bool
is_draft status = status === "draft"

abbrev pub is_voided : String → Bool
is_voided status = status === "voided"

abbrev pub is_final : String → Bool
is_final status = not (is_draft status) && not (is_voided status)

pub record Mutations : Type 0 where
  pub issue_invoice : MutationStatus
  pub delete_invoice : MutationStatus
  pub void_invoice : MutationStatus
  pub duplicate_invoice : MutationStatus
  pub issue_credit_note : MutationStatus
  pub record_payment : MutationStatus

-- The fields of the dialogs.
pub record Form : Type 0 where
  pub reason : String
  pub amount : String
  pub paid_on : Option String
  pub method : String
  pub payment_ref : String
  pub notes : String

pub record Detail : Type 0 where
  pub action : Option ActionKind
  pub form : Form
  pub mutations : Mutations
  pub downloading : Option String
  pub download_failed : Bool
  pub saved_file : Option String
  pub peppol_errors : List String

abbrev pub blank_form : Form
blank_form = record {
  reason = "";
  amount = "";
  paid_on = none;
  method = "bank_transfer";
  payment_ref = "";
  notes = "";
}

abbrev pub open_detail : Detail
open_detail = record {
  action = none;
  form = blank_form;
  mutations = record {
    issue_invoice = idle;
    delete_invoice = idle;
    void_invoice = idle;
    duplicate_invoice = idle;
    issue_credit_note = idle;
    record_payment = idle;
  };
  downloading = none;
  download_failed = false;
  saved_file = none;
  peppol_errors = [];
}

-- The bodies of the two requests that carry one.
pub record PaymentBody : Type 0 where
  pub invoice_id : String
  pub amount : String
  pub paid_on : String
  pub method : String
  pub reference : Option String
  pub notes : Option String

-- A call of `mutate`.
pub data Request : Type 0 where
  issues deletes duplicates : String → Request
  voids credits : String → String → Request
  pays : PaymentBody → Request

abbrev pub credit_body : String → String → Json
credit_body id reason = obj (field "invoice_id" (text id) (field "reason" (text reason) end))

abbrev pub payment_body : PaymentBody → Json
payment_body b = obj (
    field "invoice_id" (text b.invoice_id) (
      field "amount" (text b.amount) (
        field "paid_on" (text b.paid_on) (
          field "method" (text b.method) (
            field "reference" (text_or_null b.reference)
              (field "notes" (text_or_null b.notes) end))))))

-- The run of the query layer's mutation.
unfoldable pub mutation_of : Request → Mutation
mutation_of (issues id) = use_issue_invoice id
mutation_of (deletes id) = use_delete_invoice id
mutation_of (duplicates id) = use_duplicate_invoice id
mutation_of (voids id reason) = use_void_invoice id reason
mutation_of (credits id reason) = use_issue_credit_note (credit_body id reason)
mutation_of (pays b) = use_record_payment (payment_body b)

-- The mutation of each dialog.
abbrev pub status_of : ActionKind → Mutations → MutationStatus
status_of issue m = m.issue_invoice
status_of delete m = m.delete_invoice
status_of void m = m.void_invoice
status_of credit_note m = m.issue_credit_note
status_of payment m = m.record_payment

abbrev pub with_status : ActionKind → MutationStatus → Mutations → Mutations
with_status issue t m = record m { issue_invoice = t }
with_status delete t m = record m { delete_invoice = t }
with_status void t m = record m { void_invoice = t }
with_status credit_note t m = record m { issue_credit_note = t }
with_status payment t m = record m { record_payment = t }

unfoldable pub action_pending : Mutations → Bool
action_pending m =
    is_pending m.issue_invoice
    || is_pending m.delete_invoice
    || is_pending m.void_invoice
    || is_pending m.duplicate_invoice
    || is_pending m.issue_credit_note
    || is_pending m.record_payment

unfoldable pub action_failed : Mutations → Bool
action_failed m =
    is_error m.void_invoice
    || is_error m.duplicate_invoice
    || is_error m.issue_credit_note
    || is_error m.record_payment
