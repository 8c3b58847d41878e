-- ===== src/History/Answers.antt =====
-- The mutations that frontend-react/src/panels/HistoryPanel.tsx runs, and what their answers close.
use billgen.Prelude.{
  ℕ, String, Bool, true, false, List, [], ◌∷◌, Option, none, some, ◌≡◌, refl, if◌then◌else◌,
  Bool-cases, inl, inr, arith, ◌≤◌, ◌+◌,
}
use billgen.Queries.Status.{MutationStatus, is_pending, ended}
use billgen.Detail.{ActionKind}
use billgen.History.{
  InvoiceRow, ActionForm, ListMutations, HistoryState, blank_action, open_history, ListRequest,
  sheet_offers, selected, run_status, with_run, list_pending,
}
use billgen.History.Panel.{
  ListEvent, row_clicked, sheet_closed, dialog_closed, dialog_submitted, started, reason_edited,
  amount_edited, date_chosen, run_answered, heading_clicked, page_chosen, start_action,
  close_dialog, kind_of, pays, reasons, dialog_disabled, asked, mark_run, started_run, run_ended,
  edited_form, react, after_all,
}

abbrev pub bit : MutationStatus → ℕ
bit t = if is_pending t then 1 else 0

-- How many mutations run.
abbrev pub running : ListMutations → ℕ
running m =
    bit m.void_invoice
    + bit m.issue_invoice
    + bit m.delete_invoice
    + bit m.issue_credit_note
    + bit m.record_payment

running-mark_run :
    (q : ListRequest) (m : ListMutations) → list_pending m ≡ false → running (mark_run q m) ≤ 1
unfolding mark_run list_pending
running-mark_run q m h = ground arith

running-with_run :
    (k : ActionKind) (ok : Bool) (m : ListMutations) → running (with_run k (ended ok) m) ≤ running m
running-with_run k ok m = ground arith

disabled-pending : (s : HistoryState) → dialog_disabled s ≡ false → list_pending s.mutations ≡ false
unfolding dialog_disabled
disabled-pending s h = ground arith

asked-pending :
    (q : ListRequest) (s : HistoryState)
    → asked dialog_submitted s ≡ some q
    → list_pending s.mutations ≡ false
unfolding asked
asked-pending q s h = elim (Bool-cases (dialog_disabled s)) [
  | inl d ↦ cc (simp d at h)
  | inr d ↦ disabled-pending s d
]

started-running :
    (o : Option ListRequest) (s : HistoryState)
    → asked dialog_submitted s ≡ o
    → running s.mutations ≤ 1
    → running (started_run o s).mutations ≤ 1
started-running none s e h = h
started-running (some q) s e h = running-mark_run q s.mutations (asked-pending q s e)

edited_form-mutations :
    (b : Bool) (f : ActionForm) (s : HistoryState) → (edited_form b f s).mutations ≡ s.mutations
edited_form-mutations true f s = refl
edited_form-mutations false f s = refl

start_action-mutations :
    (draft : String) (k : ActionKind) (o : Option InvoiceRow) (s : HistoryState)
    → (start_action draft k o s).mutations ≡ s.mutations
start_action-mutations draft k none s = refl
start_action-mutations draft k (some row) s = elim (Bool-cases (sheet_offers row.status k)) [
  | inl e ↦ simp e
  | inr e ↦ simp e
]

ended-running :
    (k : ActionKind) (ok : Bool) (s : HistoryState)
    → running s.mutations ≤ 1
    → running (run_ended k ok s).mutations ≤ 1
unfolding close_dialog
ended-running k true s h = omega (arith, running-with_run k true s.mutations)
ended-running k false s h = omega (arith, running-with_run k false s.mutations)

react-running :
    (draft : String) (rows : List InvoiceRow) (e : ListEvent) (s : HistoryState)
    → running s.mutations ≤ 1
    → running (react draft rows e s).mutations ≤ 1
unfolding react close_dialog
react-running draft rows (row_clicked i) s h = h
react-running draft rows sheet_closed s h = h
react-running draft rows (started j) s h = rw (start_action-mutations draft j (selected rows s) s) h
react-running draft rows dialog_closed s h = h
react-running draft rows dialog_submitted s h = started-running (asked dialog_submitted s) s refl h
react-running draft rows (reason_edited v) s h =
    rw (edited_form-mutations (reasons (kind_of s.action)) _ s) h
react-running draft rows (amount_edited v) s h =
    rw (edited_form-mutations (pays (kind_of s.action)) _ s) h
react-running draft rows (date_chosen d) s h =
    rw (edited_form-mutations (pays (kind_of s.action)) _ s) h
react-running draft rows (run_answered j ok) s h =
    elim (Bool-cases (is_pending (run_status j s.mutations))) [
      | inl e ↦ simp e (ended-running j ok s h)
      | inr e ↦ simp e h
    ]
react-running draft rows (heading_clicked key) s h = h
react-running draft rows (page_chosen p) s h = h

after_all-running :
    (draft : String) (events : List (List InvoiceRow × ListEvent)) (s : HistoryState)
    → running s.mutations ≤ 1
    → running (after_all draft events s).mutations ≤ 1
unfolding after_all
after_all-running draft [] s h = h
after_all-running draft ((rows, e) ∷ events) s h =
    after_all-running draft events (react draft rows e s) (react-running draft rows e s h)

-- However the list is used, one request at most runs at a time.
pub one_running :
    (draft : String) (events : List (List InvoiceRow × ListEvent))
    → running (after_all draft events open_history).mutations ≤ 1
one_running draft events = after_all-running draft events open_history (omega arith)

-- While a request runs its dialog can be closed and another opened, on any invoice and action that is
-- offered; the success of the first then closes it, and clears whatever it had in its fields.
pub answer-other :
    (draft : String) (rows : List InvoiceRow) (row : InvoiceRow) (j k : ActionKind) (f : ActionForm)
    (s : HistoryState)
    → is_pending (run_status j s.mutations) ≡ true
    → selected rows s ≡ some row
    → sheet_offers row.status k ≡ true
    → (kind_of (react draft rows (started k) (react draft rows dialog_closed s)).action ≡ some k)
      × (kind_of
            (react draft rows
              (run_answered j true)
              (record (react draft rows (started k) (react draft rows dialog_closed s)) {
                form = f;
              })).action
          ≡ none)
      × ((react draft rows
            (run_answered j true)
            (record (react draft rows (started k) (react draft rows dialog_closed s)) {
              form = f;
            })).form
          ≡ blank_action)
unfolding react close_dialog
answer-other draft rows row j k f s running found offered =
    (simp (found, offered), simp (found, offered, running), simp (found, offered, running))
