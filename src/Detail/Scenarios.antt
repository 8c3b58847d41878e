-- ===== src/Detail/Scenarios.antt =====
-- The theorems on the invoice screen, on a draft and an issued invoice.
use billgen.Prelude.{
  true, false, List, [], ◌∷◌, Option, none, some, ◌≡◌, refl, any, All, length, ◌≤◌, if◌then◌else◌,
  map, all,
}
use billgen.Queries.Status.{pending, is_pending}
use billgen.Detail.{
  ActionKind, issue, delete, void, credit_note, payment, InvoiceResponse, Detail, open_detail,
  voids, Mutations, status_of, action_pending,
}
use billgen.Detail.Panel.{
  Event, opened, confirmed, submitted, reason_typed, amount_typed, date_picked, answered, step, run,
  requests, submit_disabled, submit_action, mark_pending,
}
use billgen.Detail.Guards.{is_request, never_requested}
use billgen.Detail.Forms.{IsSound, open_detail-IsSound}
use billgen.Detail.Complete.{IsFilled, requests-AreFilled}
use billgen.Detail.Failures.{is_form, pressed_twice}
use billgen.Detail.Filename.{is_legal, document_filename}
use billgen.Detail.Download.{xml, api_error, banners, start, finish, filename_of, outcome}
use billgen.Detail.Outcome.{finish-outcome}
use billgen.Detail.Rail.{
  AuditEntry, Wording, TimelineItem, done, current, context_rail, of_invoice, reverse,
}
use billgen.Detail.Lifecycle.{history_of, shown, context_rail-history}

abbrev a_draft : InvoiceResponse
a_draft = record { id = "7"; reference = none; status = "draft" }

abbrev an_invoice : InvoiceResponse
an_invoice = record { id = "7"; reference = some "ACME/7"; status = "issued" }

abbrev voided_once : List (InvoiceResponse × Event)
voided_once =
    (an_invoice, opened void)
    ∷ (an_invoice, reason_typed "wrong client")
    ∷ (an_invoice, submitted)
    ∷ (an_invoice, submitted)
    ∷ (an_invoice, answered void true)
    ∷ []

voided_test : requests voided_once open_detail ≡ (voids "7" "wrong client" ∷ [])
unfolding requests step submit_disabled action_pending submit_action mark_pending
voided_test = refl

never_requested_example :
    any
      (is_request void)
      (requests ((a_draft, opened void) ∷ (a_draft, submitted) ∷ []) open_detail)
    ≡ false
never_requested_example =
    never_requested void ((a_draft, opened void) ∷ (a_draft, submitted) ∷ []) (refl, (refl, tt))

open_detail-IsSound_example : IsSound (run voided_once open_detail)
open_detail-IsSound_example = open_detail-IsSound voided_once

abbrev paid_once : List (InvoiceResponse × Event)
paid_once =
    (an_invoice, opened payment)
    ∷ (an_invoice, amount_typed "10")
    ∷ (an_invoice, submitted)
    ∷ (an_invoice, date_picked (some "2026-09-10"))
    ∷ (an_invoice, submitted)
    ∷ []

-- No date, no payment.
paid_test : length (requests paid_once open_detail) ≡ 1
unfolding requests step submit_disabled action_pending submit_action
paid_test = refl

requests-AreFilled_example : All IsFilled (requests paid_once open_detail)
requests-AreFilled_example = requests-AreFilled paid_once

abbrev with_mutations : Option ActionKind → Mutations → Detail
with_mutations a m = record open_detail { action = a; mutations = m }

abbrev issuing : Detail
issuing = with_mutations (some issue) (record open_detail.mutations { issue_invoice = pending })

abbrev copying : Detail
copying = with_mutations none (record open_detail.mutations { duplicate_invoice = pending })

none_pending : (j : ActionKind) → is_pending (status_of j copying.mutations) ≡ false
none_pending issue = refl
none_pending delete = refl
none_pending void = refl
none_pending credit_note = refl
none_pending payment = refl

pressed_twice_example :
    (length (
        requests
          ((a_draft, submitted) ∷ (a_draft, submitted) ∷ [])
          (record open_detail { action = some issue }))
      ≤ 1)
    × (length (
          requests
            ((a_draft, confirmed) ∷ (a_draft, confirmed) ∷ [])
            (record open_detail { action = some issue }))
        ≡ (if is_form issue then 0 else 2))
pressed_twice_example =
    pressed_twice a_draft issue (record open_detail { action = some issue }) refl

filename_test : filename_of xml an_invoice ≡ "ACME-7.xml"
unfolding filename_of document_filename
filename_test = refl

finish-outcome_example :
    ((finish
        (filename_of xml an_invoice)
        (api_error ("peppol.vat" ∷ []))
        (start xml open_detail)).downloading
      ≡ none)
    × (banners (
          finish
            (filename_of xml an_invoice)
            (api_error ("peppol.vat" ∷ []))
            (start xml open_detail))
        ≡ outcome (filename_of xml an_invoice) (api_error ("peppol.vat" ∷ [])))
    × (is_legal (filename_of xml an_invoice) ≡ true)
finish-outcome_example = finish-outcome xml an_invoice (api_error ("peppol.vat" ∷ [])) open_detail

abbrev wording : Wording
wording = record { audit_action = λ s. s; locale_string = λ s. s }

abbrev entries : List AuditEntry
entries =
    record { id = "b"; action = "issue"; timestamp = "2"; target_id = "7" }
    ∷ record { id = "a"; action = "create"; timestamp = "1"; target_id = "7" }
    ∷ []

abbrev lifecycle : List TimelineItem
lifecycle =
    record { key = "a"; label = "create"; timestamp = "1"; status = done }
    ∷ record { key = "b"; label = "issue"; timestamp = "2"; status = current }
    ∷ []

context_rail-history_example :
    (all (of_invoice "7") entries ≡ true) × (map shown lifecycle ≡ history_of (reverse entries))
unfolding context_rail
context_rail-history_example = context_rail-history wording "7" entries lifecycle refl
