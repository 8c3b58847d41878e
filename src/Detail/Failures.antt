-- ===== src/Detail/Failures.antt =====
-- What the panel of frontend-react/src/panels/InvoiceDetailPanel.tsx shows of a failed request, and
-- what a second press of a button does.
use billgen.Prelude.{
  Bool, true, false, ◌&&◌, [], ◌∷◌, Option, none, some, ◌≡◌, if◌then◌else◌, arith,
}
use billgen.Queries.Status.{is_pending, failed}
use billgen.Detail.{
  ActionKind, issue, delete, void, credit_note, payment, InvoiceResponse, Detail, Request,
  status_of, action_pending, action_failed, Mutations, with_status,
}
use billgen.Detail.Panel.{
  opened, confirmed, submitted, answered, duplicate_answered, is_offered, confirm_action,
  submit_disabled, sent, requested, step, requests, mark_pending, prepend,
}
use billgen.Detail.Guards.{requested-action}
use billgen.Prelude.{length, ◌≤◌}

-- The actions whose dialog is a form.
abbrev pub is_form : ActionKind → Bool
is_form issue = false
is_form delete = false
is_form void = true
is_form credit_note = true
is_form payment = true

abbrev pub has_form : Option ActionKind → Bool
has_form none = false
has_form (some k) = is_form k

-- Whether a message says that a request has failed.
unfoldable pub shows_failure : Detail → Bool
unfolding action_failed
shows_failure s = has_form s.action && action_failed s.mutations

failed-shown :
    (k : ActionKind) (m : Mutations)
    → (is_form k && action_failed (with_status k failed m)) ≡ is_form k
unfolding action_failed
failed-shown k m = ground arith

-- A request fails while its dialog is open: the dialog stays open, and it says that the request has
-- failed where it is a form (to void, to credit, to record a payment), while the dialogs that issue
-- an invoice and delete a draft say nothing.
answered-failure :
    (r : InvoiceResponse) (k : ActionKind) (s : Detail)
    → is_pending (status_of k s.mutations) ≡ true
    → s.action ≡ some k
    → ((step r (answered k false) s).action ≡ some k)
      × (shows_failure (step r (answered k false) s) ≡ is_form k)
unfolding step shows_failure
answered-failure r k s running h = (simp running h, simp (running, h) (failed-shown k s.mutations))

copy_failed-opened :
    (k : ActionKind) (m : Mutations)
    → is_form k ≡ true
    → (is_form k && action_failed (record m { duplicate_invoice = failed })) ≡ true
unfolding action_failed
copy_failed-opened k m h = ground arith

copy_failed-settled :
    (m : Mutations)
    → ((j : ActionKind) → is_pending (status_of j m) ≡ false)
    → action_pending (record m { duplicate_invoice = failed }) ≡ false
unfolding action_pending
copy_failed-settled m h = ground (arith, h issue, h delete, h void, h credit_note, h payment)

-- A copy fails while no dialog is open: nothing says so, until a dialog with a form is opened, which
-- then says that a request has failed although nothing was sent from it.
duplicate-failure :
    (r : InvoiceResponse) (k : ActionKind) (s : Detail)
    → s.action ≡ none
    → is_pending s.mutations.duplicate_invoice ≡ true
    → ((j : ActionKind) → is_pending (status_of j s.mutations) ≡ false)
    → is_offered r.status k ≡ true
    → is_form k ≡ true
    → (shows_failure (step r (duplicate_answered false) s) ≡ false)
      × (shows_failure (step r (opened k) (step r (duplicate_answered false) s)) ≡ true)
unfolding step shows_failure
duplicate-failure r k s h dup others offered form = (
  simp (dup, h),
  simp (dup, offered, copy_failed-settled s.mutations others)
      (copy_failed-opened k s.mutations form),
)

running-disabled : (q : Request) (s : Detail) → submit_disabled (requested (some q) s) ≡ true
unfolding submit_disabled action_pending mark_pending
running-disabled q s = ground arith

length-prepend : (o : Option Request) → length (prepend o []) ≤ 1
length-prepend none = omega arith
length-prepend (some q) = omega arith

submitted_again :
    (r : InvoiceResponse) (q : Request) (s : Detail)
    → sent r submitted (requested (some q) s) ≡ none
unfolding sent
submitted_again r q s = simp (running-disabled q s)

after_submit :
    (r : InvoiceResponse) (o : Option Request) (s : Detail)
    → length (prepend o (prepend (sent r submitted (requested o s)) [])) ≤ 1
after_submit r none s = length-prepend (sent r submitted s)
after_submit r (some q) s = simp (submitted_again r q s) (omega arith)

confirmed_twice :
    (r : InvoiceResponse) (k : ActionKind)
    → length (prepend (confirm_action r (some k)) (prepend (confirm_action r (some k)) []))
      ≡ (if is_form k then 0 else 2)
unfolding confirm_action
confirmed_twice r k = ground arith

-- Two presses with no answer between them: submitting a form sends one request at most, since its
-- button is disabled while one runs; Confirm, on an invoice to issue or a draft to delete, sends two.
pub pressed_twice :
    (r : InvoiceResponse) (k : ActionKind) (s : Detail)
    → s.action ≡ some k
    → (length (requests ((r, submitted) ∷ (r, submitted) ∷ []) s) ≤ 1)
      × (length (requests ((r, confirmed) ∷ (r, confirmed) ∷ []) s) ≡ (if is_form k then 0 else 2))
unfolding requests step
pressed_twice r k s h = (
  after_submit r (sent r submitted s) s,
  unfold sent in simp (h, requested-action (confirm_action r (some k)) s) (confirmed_twice r k),
)
