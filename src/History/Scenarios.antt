-- ===== src/History/Scenarios.antt =====
-- The theorems on the list of invoices, on a paid invoice, a draft and an issued one.
use billgen.Prelude.{String, true, List, [], ◌∷◌, none, some, ◌≡◌, refl, leb}
use billgen.Queries.Status.{pending}
use billgen.Detail.{void, payment}
use billgen.History.{
  InvoiceRow, HistoryState, ActionForm, blank_action, open_history, voids_row, list_pending,
  sheet_offers,
}
use billgen.History.Panel.{
  ListEvent, row_clicked, started, dialog_closed, reason_edited, dialog_submitted, run_answered,
  react, asked_for, asked, dialog_disabled, handle_submit, mark_run, kind_of,
}
use billgen.History.Answers.{answer-other}
use billgen.History.Pages.{page_count, visible, up_to, has_row}
use billgen.History.Covered.{up_to-page_count}

abbrev row_of : String → String → InvoiceRow
row_of id status = record {
  id = id;
  reference = some id;
  client_id = "c";
  issue_date = "2026-09-01";
  due_date = none;
  total_ttc = "10";
  status = status;
}

abbrev rows : List InvoiceRow
rows = row_of "a" "paid" ∷ row_of "b" "draft" ∷ row_of "c" "issued" ∷ []

abbrev voiding : List (List InvoiceRow × ListEvent)
voiding =
    (rows, row_clicked "c")
    ∷ (rows, started void)
    ∷ (rows, reason_edited "twice")
    ∷ (rows, dialog_submitted)
    ∷ (rows, dialog_submitted)
    ∷ []

voiding_test : asked_for "Draft" voiding open_history ≡ (voids_row "c" "twice" ∷ [])
unfolding asked_for asked react dialog_disabled list_pending handle_submit mark_run sheet_offers
voiding_test = refl

abbrev paying : List (List InvoiceRow × ListEvent)
paying = (rows, row_clicked "a") ∷ (rows, started payment) ∷ (rows, dialog_submitted) ∷ []

abbrev voiding_c : HistoryState
voiding_c = record open_history {
  selected_id = some "c";
  mutations = record open_history.mutations { void_invoice = pending };
}

abbrev filled : ActionForm
filled = record { reason = ""; amount = "10"; paid_on = some "2026-09-10" }

answer-other_example :
    (kind_of
        (react "Draft" rows (started payment) (react "Draft" rows dialog_closed voiding_c)).action
      ≡ some payment)
    × (kind_of
          (react "Draft" rows
            (run_answered void true)
            (record (react "Draft" rows
              (started payment)
              (react "Draft" rows dialog_closed voiding_c)) { form = filled })).action
        ≡ none)
    × ((react "Draft" rows
          (run_answered void true)
          (record (react "Draft" rows
            (started payment)
            (react "Draft" rows dialog_closed voiding_c)) { form = filled })).form
        ≡ blank_action)
unfolding sheet_offers
answer-other_example =
    answer-other "Draft" rows (row_of "c" "issued") void payment filled voiding_c refl refl refl

-- Three rows, seen from the second page.
up_to-page_count_example :
    (up_to (page_count rows) rows ≡ rows) × (has_row (visible 2 rows) ≡ leb 2 (page_count rows))
up_to-page_count_example = up_to-page_count 1 rows refl

second_page_test : visible 2 rows ≡ []
unfolding visible
second_page_test = refl
