-- ===== src/History/Asked.antt =====
-- Which requests frontend-react/src/panels/HistoryPanel.tsx makes, and on which invoice.
use billgen.Prelude.{String, Bool, false, ◌&&◌, Option, none, some, ◌===◌}
use billgen.Detail.{ActionKind, issue, delete, void, credit_note, payment}
use billgen.Detail.Guards.{same_kind}
use billgen.History.{
  InvoiceRow, PendingAction, ListRequest, issues_row, deletes_row, voids_row, credits_row, pays_row,
  sheet_offers,
}

-- Whether an action, or a request, is of a kind and on an invoice.
abbrev pub is_taken : ActionKind → String → Option PendingAction → Bool
is_taken k id none = false
is_taken k id (some a) = same_kind k a.kind && a.invoice_id === id

abbrev pub is_asked : ActionKind → String → ListRequest → Bool
is_asked issue id (issues_row i) = i === id
is_asked delete id (deletes_row i) = i === id
is_asked void id (voids_row i reason) = i === id
is_asked credit_note id (credits_row i reason) = i === id
is_asked payment id (pays_row i amount paid_on) = i === id
is_asked k id q = false

abbrev asks : ActionKind → String → Option ListRequest → Bool
asks k id none = false
asks k id (some q) = is_asked k id q

-- Whether a list has the invoice with a status whose sheet offers the action.
abbrev pub offers_on : ActionKind → String → InvoiceRow → Bool
offers_on k id row = row.id === id && sheet_offers row.status k
