-- ===== src/Detail/Panel.antt =====
-- The handlers of frontend-react/src/panels/InvoiceDetailPanel.tsx. The invoice that the query has
-- answered may change between two events.
use billgen.Prelude.{
  String, Bool, true, false, not, ◌&&◌, ◌||◌, List, [], ◌∷◌, Option, none, some, ◌===◌,
  if◌then◌else◌, any,
}
use billgen.Queries.Status.{pending, succeeded, failed, is_pending}
use billgen.Detail.{
  ActionKind, issue, delete, void, credit_note, payment, InvoiceResponse, is_draft, is_final,
  Mutations, Form, Detail, blank_form, Request, issues, deletes, duplicates, voids, credits, pays,
  payment_methods, status_of, with_status, action_pending,
}

-- What happens to the panel: a button of the actions card, the closing of a dialog (Cancel, Escape,
-- the cross or the backdrop), Confirm, the form's submission, an edit of a field, and the answer to a
-- run of a mutation, which says whether it succeeded.
pub data Event : Type 0 where
  opened : ActionKind → Event
  duplicated closed confirmed submitted : Event
  reason_typed amount_typed method_chosen ref_typed notes_typed : String → Event
  date_picked : Option String → Event
  answered : ActionKind → Bool → Event
  duplicate_answered : Bool → Event

-- The buttons that the actions card has for an invoice of this status.
abbrev pub is_offered : String → ActionKind → Bool
is_offered status issue = is_draft status
is_offered status delete = is_draft status
is_offered status void = is_final status
is_offered status credit_note = is_final status
is_offered status payment = is_final status

unfoldable pub close_action : Detail → Detail
close_action s = record s { action = none; form = blank_form }

-- `value || null`
abbrev pub or_none : String → Option String
or_none v = if v === "" then none else some v

-- Whether a date is there and not blank.
abbrev pub has_date : Option String → Bool
has_date none = false
has_date (some d) = not (d === "")

abbrev pub payment_of : InvoiceResponse → Form → Option String → Option Request
payment_of r f none = none
payment_of r f (some d) =
    if d === ""
    then none
    else some (
        pays (record {
          invoice_id = r.id;
          amount = f.amount;
          paid_on = d;
          method = f.method;
          reference = or_none f.payment_ref;
          notes = or_none f.notes;
        }))

-- The call of `submitAction`.
unfoldable pub submit_action : InvoiceResponse → Form → Option ActionKind → Option Request
submit_action r f (some void) = some (voids r.id f.reason)
submit_action r f (some credit_note) = some (credits r.id f.reason)
submit_action r f (some payment) = payment_of r f f.paid_on
submit_action r f _ = none

-- The call of the confirmation dialogs.
unfoldable pub confirm_action : InvoiceResponse → Option ActionKind → Option Request
confirm_action r (some issue) = some (issues r.id)
confirm_action r (some delete) = some (deletes r.id)
confirm_action r _ = none

-- Whether the browser submits the form: no field that is marked required is empty.
abbrev pub is_filled : Form → Option ActionKind → Bool
is_filled f (some payment) = not (f.amount === "")
is_filled f (some void) = not (f.reason === "")
is_filled f (some credit_note) = not (f.reason === "")
is_filled f _ = false

abbrev pub is_payment : Option ActionKind → Bool
is_payment (some payment) = true
is_payment _ = false

abbrev pub asks_reason : Option ActionKind → Bool
asks_reason (some void) = true
asks_reason (some credit_note) = true
asks_reason _ = false

unfoldable pub submit_disabled : Detail → Bool
submit_disabled s =
    action_pending s.mutations || (is_payment s.action && not (has_date s.form.paid_on))

-- The request that an event makes.
unfoldable pub sent : InvoiceResponse → Event → Detail → Option Request
sent r duplicated s = if action_pending s.mutations then none else some (duplicates r.id)
sent r confirmed s = confirm_action r s.action
sent r submitted s =
    if submit_disabled s
    then none
    else if is_filled s.form s.action
    then submit_action r s.form s.action
    else none
sent r _ s = none

unfoldable pub mark_pending : Request → Mutations → Mutations
mark_pending (issues id) m = record m { issue_invoice = pending }
mark_pending (deletes id) m = record m { delete_invoice = pending }
mark_pending (duplicates id) m = record m { duplicate_invoice = pending }
mark_pending (voids id reason) m = record m { void_invoice = pending }
mark_pending (credits id reason) m = record m { issue_credit_note = pending }
mark_pending (pays b) m = record m { record_payment = pending }

abbrev pub requested : Option Request → Detail → Detail
requested none s = s
requested (some q) s = record s { mutations = mark_pending q s.mutations }

-- An answer reaches the panel only while the mutation runs.
abbrev pub settled : ActionKind → Bool → Detail → Detail
settled k true s = close_action (record s { mutations = with_status k succeeded s.mutations })
settled k false s = record s { mutations = with_status k failed s.mutations }

abbrev pub duplicate_settled : Bool → Detail → Detail
duplicate_settled ok s = record s {
  mutations = record s.mutations { duplicate_invoice = if ok then succeeded else failed };
}

abbrev pub typed : Bool → Form → Detail → Detail
typed shown f s = if shown then record s { form = f } else s

unfoldable pub step : InvoiceResponse → Event → Detail → Detail
unfolding close_action sent
step r (opened k) s =
    if is_offered r.status k && not (action_pending s.mutations)
    then record s { action = some k }
    else s
step r duplicated s = requested (sent r duplicated s) s
step r closed s = close_action s
step r confirmed s = requested (sent r confirmed s) s
step r submitted s = requested (sent r submitted s) s
step r (reason_typed v) s = typed (asks_reason s.action) (record s.form { reason = v }) s
step r (amount_typed v) s = typed (is_payment s.action) (record s.form { amount = v }) s
step r (date_picked d) s = typed (is_payment s.action) (record s.form { paid_on = d }) s
step r (method_chosen v) s =
    typed (is_payment s.action && any (λ m. m === v) payment_methods) (record s.form { method = v })
      s
step r (ref_typed v) s = typed (is_payment s.action) (record s.form { payment_ref = v }) s
step r (notes_typed v) s = typed (is_payment s.action) (record s.form { notes = v }) s
step r (answered k ok) s = if is_pending (status_of k s.mutations) then settled k ok s else s
step r (duplicate_answered ok) s =
    if is_pending s.mutations.duplicate_invoice then duplicate_settled ok s else s

unfoldable pub run : List (InvoiceResponse × Event) → Detail → Detail
unfolding step
run [] s = s
run ((r, e) ∷ later) s = run later (step r e s)

abbrev pub prepend : Option Request → List Request → List Request
prepend none rest = rest
prepend (some q) rest = q ∷ rest

-- The requests of a run, in order.
unfoldable pub requests : List (InvoiceResponse × Event) → Detail → List Request
unfolding step sent
requests [] s = []
requests ((r, e) ∷ later) s = prepend (sent r e s) (requests later (step r e s))
