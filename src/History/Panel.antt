-- ===== src/History/Panel.antt =====
-- The handlers of frontend-react/src/panels/HistoryPanel.tsx. The list that the query answers may change
-- between two events.
use billgen.Prelude.{
  ℕ, String, Bool, true, false, not, ◌&&◌, ◌||◌, List, [], ◌∷◌, Option, none, some, ◌===◌,
  if◌then◌else◌,
}
use billgen.Queries.Status.{pending, is_pending, ended}
use billgen.Detail.{ActionKind, issue, delete, void, credit_note, payment, is_draft}
use billgen.Detail.Panel.{has_date}
use billgen.History.{
  InvoiceRow, PendingAction, ActionForm, ListMutations, Direction, asc, desc, TableSort,
  HistoryState, blank_action, ListRequest, issues_row, deletes_row, voids_row, credits_row,
  pays_row, sheet_offers, selected, run_status, with_run, list_pending,
}

-- What happens to the panel: a row is clicked or its sheet closed, a button of the sheet, the edits
-- and the submission of the dialog, the answer to a request, a heading of the table, a page.
pub data ListEvent : Type 0 where
  row_clicked : String → ListEvent
  sheet_closed dialog_closed dialog_submitted : ListEvent
  started : ActionKind → ListEvent
  reason_edited amount_edited : String → ListEvent
  date_chosen : Option String → ListEvent
  run_answered : ActionKind → Bool → ListEvent
  heading_clicked : String → ListEvent
  page_chosen : ℕ → ListEvent

abbrev pub or_id : InvoiceRow → Option String → String
or_id row none = row.id
or_id row (some reference) = reference

-- The name that the dialog gives the invoice; `draft` is a translation.
abbrev pub named_row : String → InvoiceRow → String
named_row draft row = if is_draft row.status then draft else or_id row row.reference

abbrev pub start_action : String → ActionKind → Option InvoiceRow → HistoryState → HistoryState
start_action draft k none s = s
start_action draft k (some row) s =
    if sheet_offers row.status k
    then record s {
      action = some (record { kind = k; invoice_id = row.id; named = named_row draft row });
    }
    else s

unfoldable pub close_dialog : HistoryState → HistoryState
close_dialog s = record s { action = none; form = blank_action }

abbrev pub pay_row : String → String → Option String → Option ListRequest
pay_row id amount none = none
pay_row id amount (some paid_on) =
    if paid_on === "" then none else some (pays_row id amount paid_on)

-- The call of `handleActionSubmit`.
unfoldable pub handle_submit : ActionForm → Option PendingAction → Option ListRequest
handle_submit f none = none
handle_submit f (some a) = elim a.kind [
  | issue ↦ some (issues_row a.invoice_id)
  | delete ↦ some (deletes_row a.invoice_id)
  | void ↦ some (voids_row a.invoice_id f.reason)
  | credit_note ↦ some (credits_row a.invoice_id f.reason)
  | payment ↦ pay_row a.invoice_id f.amount f.paid_on
]

abbrev pub kind_of : Option PendingAction → Option ActionKind
kind_of none = none
kind_of (some a) = some a.kind

abbrev pub pays : Option ActionKind → Bool
pays (some payment) = true
pays _ = false

abbrev pub reasons : Option ActionKind → Bool
reasons (some void) = true
reasons (some credit_note) = true
reasons _ = false

-- Whether the browser submits the form: no field that is marked required is empty.
abbrev pub is_answered : ActionForm → Option ActionKind → Bool
is_answered f none = false
is_answered f (some issue) = true
is_answered f (some delete) = true
is_answered f (some payment) = not (f.amount === "")
is_answered f (some void) = not (f.reason === "")
is_answered f (some credit_note) = not (f.reason === "")

unfoldable pub dialog_disabled : HistoryState → Bool
dialog_disabled s =
    list_pending s.mutations || (pays (kind_of s.action) && not (has_date s.form.paid_on))

-- The request that an event makes.
unfoldable pub asked : ListEvent → HistoryState → Option ListRequest
asked dialog_submitted s =
    if dialog_disabled s
    then none
    else if is_answered s.form (kind_of s.action)
    then handle_submit s.form s.action
    else none
asked e s = none

unfoldable pub mark_run : ListRequest → ListMutations → ListMutations
mark_run (issues_row id) m = record m { issue_invoice = pending }
mark_run (deletes_row id) m = record m { delete_invoice = pending }
mark_run (voids_row id reason) m = record m { void_invoice = pending }
mark_run (credits_row id reason) m = record m { issue_credit_note = pending }
mark_run (pays_row id amount paid_on) m = record m { record_payment = pending }

abbrev pub started_run : Option ListRequest → HistoryState → HistoryState
started_run none s = s
started_run (some q) s = record s { mutations = mark_run q s.mutations }

-- `onSuccess` closes the dialog, whichever is open.
abbrev pub run_ended : ActionKind → Bool → HistoryState → HistoryState
run_ended k true s = close_dialog (record s { mutations = with_run k (ended true) s.mutations })
run_ended k false s = record s { mutations = with_run k (ended false) s.mutations }

abbrev pub flipped : TableSort → String → Direction
flipped sort key = if sort.key === key then elim sort.direction [ asc ↦ desc | desc ↦ asc ] else asc

abbrev pub edited_form : Bool → ActionForm → HistoryState → HistoryState
edited_form shown f s = if shown then record s { form = f } else s

-- The panel after an event.
unfoldable pub react : String → List InvoiceRow → ListEvent → HistoryState → HistoryState
unfolding close_dialog asked
react draft rows (row_clicked id) s = record s { selected_id = some id }
react draft rows sheet_closed s = record s { selected_id = none }
react draft rows (started k) s = start_action draft k (selected rows s) s
react draft rows dialog_closed s = close_dialog s
react draft rows dialog_submitted s = started_run (asked dialog_submitted s) s
react draft rows (reason_edited v) s =
    edited_form (reasons (kind_of s.action)) (record s.form { reason = v }) s
react draft rows (amount_edited v) s =
    edited_form (pays (kind_of s.action)) (record s.form { amount = v }) s
react draft rows (date_chosen d) s =
    edited_form (pays (kind_of s.action)) (record s.form { paid_on = d }) s
react draft rows (run_answered k ok) s =
    if is_pending (run_status k s.mutations) then run_ended k ok s else s
react draft rows (heading_clicked key) s = record s {
  sort = record { key = key; direction = flipped s.sort key };
  page = 1;
}
react draft rows (page_chosen p) s = record s { page = p }

unfoldable pub after_all : String → List (List InvoiceRow × ListEvent) → HistoryState → HistoryState
unfolding react
after_all draft [] s = s
after_all draft ((rows, e) ∷ later) s = after_all draft later (react draft rows e s)

abbrev pub add_request : Option ListRequest → List ListRequest → List ListRequest
add_request none rest = rest
add_request (some q) rest = q ∷ rest

-- The requests of a run, in order.
unfoldable pub asked_for :
    String → List (List InvoiceRow × ListEvent) → HistoryState → List ListRequest
unfolding react asked
asked_for draft [] s = []
asked_for draft ((rows, e) ∷ later) s =
    add_request (asked e s) (asked_for draft later (react draft rows e s))
