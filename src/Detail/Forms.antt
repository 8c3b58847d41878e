-- ===== src/Detail/Forms.antt =====
-- The dialogs of frontend-react/src/panels/InvoiceDetailPanel.tsx: their fields, and whose answer
-- closes them.
use billgen.Prelude.{true, List, [], ◌∷◌, ◌≡◌, refl, inl, inr}
use billgen.Detail.{
  ActionKind, issue, delete, void, credit_note, payment, InvoiceResponse, Detail, open_detail,
}
use billgen.Detail.Panel.{Event, step, run}
use billgen.Detail.Guards.{same_kind}
use billgen.Detail.Fields.{IsBlankClosed, is_method, step-blank, step-known}
use billgen.Detail.Running.{
  is_running, is_own, own-asked, is_action-own, step-running, step-own, sent-is_action,
}

-- No dialog leaves its fields filled when it is closed; the method is one of the list; while the
-- mutation of an action runs, no other action runs and no other dialog is open.
pub record IsSound (s : Detail) : Type 0 where
  pub blank : IsBlankClosed s.action s.form
  pub known : is_method s.form.method ≡ true
  pub own : (k : ActionKind) → is_running k s ≡ true → is_own k s.action ≡ true
  pub alone :
      (k j : ActionKind) → is_running k s ≡ true → is_running j s ≡ true → same_kind k j ≡ true

module _ (r : InvoiceResponse) (s : Detail) (h : IsSound s) where
  step-alone :
      (e : Event) (k j : ActionKind)
      → is_running k (step r e s) ≡ true
      → is_running j (step r e s) ≡ true
      → same_kind k j ≡ true
  step-alone e k j runs also = elim (step-running k r s e runs) [
    | inl old ↦ elim (step-running j r s e also) [
      | inl old2 ↦ h.alone k j old old2
      | inr new ↦ (own-asked k j s.action (h.own k old) (sent-is_action j r s e new)).0
    ]
    | inr new ↦ elim (step-running j r s e also) [
      | inl old ↦ (own-asked j k s.action (h.own j old) (sent-is_action k r s e new)).1
      | inr new2 ↦
          (own-asked k j s.action (is_action-own k s.action (sent-is_action k r s e new))
            (sent-is_action j r s e new2)).0
    ]
  ]

  pub step-IsSound : (e : Event) → IsSound (step r e s)
  step-IsSound e = record {
    blank = step-blank r s e h.blank;
    known = step-known r s e h.known;
    own = λ k. step-own k r s e (h.own k);
    alone = step-alone e;
  }

run-IsSound :
    (events : List (InvoiceResponse × Event)) (s : Detail) → IsSound s → IsSound (run events s)
unfolding run
run-IsSound [] s h = h
run-IsSound ((r, e) ∷ events) s h = run-IsSound events (step r e s) (step-IsSound r s h e)

not_running {ℓ} : {A : Type ℓ} (k : ActionKind) → is_running k open_detail ≡ true → A
not_running issue h = cc
not_running delete h = cc
not_running void h = cc
not_running credit_note h = cc
not_running payment h = cc

pub idle-IsSound : IsSound open_detail
idle-IsSound = record {
  blank = refl;
  known = refl;
  own = λ k h. not_running k h;
  alone = λ k j h. not_running k h;
}

-- However the panel is used and whatever is answered: a closed dialog has left no field filled; the
-- payment method is one that the API accepts; and while an action's mutation runs no other action's
-- runs, and no dialog is open but its own, so that its success closes no other.
pub open_detail-IsSound :
    (events : List (InvoiceResponse × Event)) → IsSound (run events open_detail)
open_detail-IsSound events = run-IsSound events open_detail idle-IsSound
