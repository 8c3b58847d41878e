-- ===== src/Detail/Running.antt =====
-- Which mutations of frontend-react/src/panels/InvoiceDetailPanel.tsx run, and whose dialog is open.
use billgen.Prelude.{
  Bool, true, false, not, ◌&&◌, Option, none, some, ◌≡◌, ◌⊎◌, sym, ◌∙◌, refl, if◌then◌else◌,
  Bool-cases, inl, inr, arith,
}
use billgen.Queries.Status.{is_pending, MutationStatus, succeeded, failed}
use billgen.Detail.{
  ActionKind, InvoiceResponse, Detail, Form, Request, status_of, action_pending, Mutations,
  with_status,
}
use billgen.Detail.Panel.{
  Event, opened, duplicated, closed, confirmed, submitted, reason_typed, amount_typed,
  method_chosen, ref_typed, notes_typed, date_picked, answered, duplicate_answered, is_offered,
  close_action, sent, requested, settled, duplicate_settled, typed, step, run, mark_pending,
  is_payment, asks_reason,
}
use billgen.Detail.Guards.{
  same_kind, is_action, is_request, asks_for, sent-other, requested-action, typed-action,
}
use billgen.Detail.Fields.{is_method}

abbrev pub is_running : ActionKind → Detail → Bool
is_running k s = is_pending (status_of k s.mutations)

-- The action of a dialog, or none.
abbrev pub is_own : ActionKind → Option ActionKind → Bool
is_own k none = true
is_own k (some j) = same_kind k j

status_of-mark_pending :
    (k : ActionKind) (q : Request) (m : Mutations)
    → is_pending (status_of k (mark_pending q m))
      ≡ (if is_request k q then true else is_pending (status_of k m))
unfolding mark_pending
status_of-mark_pending k q m = ground arith

status_of-with_settled :
    (k j : ActionKind) (t : MutationStatus) (m : Mutations)
    → is_pending t ≡ false
    → is_pending (status_of k (with_status j t m)) ≡ true
    → is_pending (status_of k m) ≡ true
status_of-with_settled k j t m = ground arith

action_pending-status_of :
    (k : ActionKind) (m : Mutations) → action_pending m ≡ false → is_pending (status_of k m) ≡ false
unfolding action_pending
action_pending-status_of k m h = ground arith

not_false : (b : Bool) → (b ≡ false → true ≡ false) → b ≡ true
not_false true h = refl
not_false false h = sym (h refl)

pub is_action-own :
    (k : ActionKind) (a : Option ActionKind) → is_action k a ≡ true → is_own k a ≡ true
is_action-own k none h = refl
is_action-own k (some j) h = h

pub own-asked :
    (k j : ActionKind) (a : Option ActionKind)
    → is_own k a ≡ true
    → is_action j a ≡ true
    → (same_kind k j ≡ true) × (same_kind j k ≡ true)
own-asked k j none h e = cc
own-asked k j (some i) h e = ground arith

requested-running :
    (k : ActionKind) (o : Option Request) (s : Detail)
    → is_running k (requested o s) ≡ true
    → (is_running k s ≡ true) ⊎ (asks_for k o ≡ true)
requested-running k none s h = inl h
requested-running k (some q) s h = elim (Bool-cases (is_request k q)) [
  | inl e ↦ inr e
  | inr e ↦ inl (ground (arith, status_of-mark_pending k q s.mutations))
]

typed-running :
    (k : ActionKind) (b : Bool) (f : Form) (s : Detail)
    → is_running k (typed b f s) ≡ true
    → is_running k s ≡ true
typed-running k true f s h = h
typed-running k false f s h = h

settled-running :
    (k j : ActionKind) (ok : Bool) (s : Detail)
    → is_running k (settled j ok s) ≡ true
    → is_running k s ≡ true
unfolding close_action
settled-running k j true s h = status_of-with_settled k j succeeded s.mutations refl h
settled-running k j false s h = status_of-with_settled k j failed s.mutations refl h

chosen-running :
    (k : ActionKind) (b : Bool) (t s : Detail)
    → (is_running k t ≡ true → is_running k s ≡ true)
    → is_running k (if b then t else s) ≡ true
    → is_running k s ≡ true
chosen-running k true t s f h = f h
chosen-running k false t s f h = h

duplicate-running :
    (k : ActionKind) (ok : Bool) (s : Detail)
    → is_running k (duplicate_settled ok s) ≡ true
    → is_running k s ≡ true
duplicate-running k ok s h = ground arith

settled-own :
    (k j : ActionKind) (ok : Bool) (s : Detail)
    → is_own k s.action ≡ true
    → is_own k (settled j ok s).action ≡ true
unfolding close_action
settled-own k j true s h = refl
settled-own k j false s h = h

module _ (k : ActionKind) (r : InvoiceResponse) (s : Detail) where
  -- A request is made for the dialog that is open.
  pub sent-is_action : (e : Event) → asks_for k (sent r e s) ≡ true → is_action k s.action ≡ true
  sent-is_action e h = not_false (is_action k s.action) (λ other. sym h ∙ sent-other k r s other e)

  pub step-running :
      (e : Event)
      → is_running k (step r e s) ≡ true
      → (is_running k s ≡ true) ⊎ (asks_for k (sent r e s) ≡ true)
  unfolding step close_action
  step-running (opened j) h = inl (
      chosen-running k (is_offered r.status j && not (action_pending s.mutations))
        (record s { action = some j }) s (λ e. e) h)
  step-running duplicated h = requested-running k (sent r duplicated s) s h
  step-running closed h = inl h
  step-running confirmed h = requested-running k (sent r confirmed s) s h
  step-running submitted h = requested-running k (sent r submitted s) s h
  step-running (reason_typed v) h = inl (typed-running k (asks_reason s.action) _ s h)
  step-running (amount_typed v) h = inl (typed-running k (is_payment s.action) _ s h)
  step-running (date_picked d) h = inl (typed-running k (is_payment s.action) _ s h)
  step-running (method_chosen v) h =
      inl (typed-running k (is_payment s.action && is_method v) _ s h)
  step-running (ref_typed v) h = inl (typed-running k (is_payment s.action) _ s h)
  step-running (notes_typed v) h = inl (typed-running k (is_payment s.action) _ s h)
  step-running (answered j ok) h = inl (
      chosen-running k (is_pending (status_of j s.mutations)) (settled j ok s) s
        (settled-running k j ok s) h)
  step-running (duplicate_answered ok) h = inl (
      chosen-running k (is_pending s.mutations.duplicate_invoice) (duplicate_settled ok s) s
        (duplicate-running k ok s) h)

  -- A dialog that an event leaves, or opens, is that of the action that runs.
  kept-own :
      (e : Event)
      → is_own k s.action ≡ true
      → is_running k s ≡ true
      → is_own k (step r e s).action ≡ true
  unfolding step close_action
  kept-own (opened j) h run = elim (Bool-cases (action_pending s.mutations)) [
    | inl p ↦ elim (Bool-cases (is_offered r.status j)) [
      | inl o ↦ simp (o, p) h
      | inr o ↦ simp (o, p) h
    ]
    | inr p ↦ cc (action_pending-status_of k s.mutations p, run)
  ]
  kept-own duplicated h run = rw (requested-action (sent r duplicated s) s) h
  kept-own closed h run = refl
  kept-own confirmed h run = rw (requested-action (sent r confirmed s) s) h
  kept-own submitted h run = rw (requested-action (sent r submitted s) s) h
  kept-own (reason_typed v) h run = rw (typed-action (asks_reason s.action) _ s) h
  kept-own (amount_typed v) h run = rw (typed-action (is_payment s.action) _ s) h
  kept-own (date_picked d) h run = rw (typed-action (is_payment s.action) _ s) h
  kept-own (method_chosen v) h run = rw (typed-action (is_payment s.action && is_method v) _ s) h
  kept-own (ref_typed v) h run = rw (typed-action (is_payment s.action) _ s) h
  kept-own (notes_typed v) h run = rw (typed-action (is_payment s.action) _ s) h
  kept-own (answered j ok) h run = elim (Bool-cases (is_pending (status_of j s.mutations))) [
    | inl e ↦ simp e (settled-own k j ok s h)
    | inr e ↦ simp e h
  ]
  kept-own (duplicate_answered ok) h run =
      elim (Bool-cases (is_pending s.mutations.duplicate_invoice)) [
        | inl e ↦ simp e h
        | inr e ↦ simp e h
      ]

  asked-own : (e : Event) → asks_for k (sent r e s) ≡ true → is_own k (step r e s).action ≡ true
  unfolding step
  asked-own duplicated h =
      rw (requested-action (sent r duplicated s) s)
        (is_action-own k s.action (sent-is_action duplicated h))
  asked-own confirmed h =
      rw (requested-action (sent r confirmed s) s)
        (is_action-own k s.action (sent-is_action confirmed h))
  asked-own submitted h =
      rw (requested-action (sent r submitted s) s)
        (is_action-own k s.action (sent-is_action submitted h))
  asked-own e h = cc

  pub step-own :
      (e : Event)
      → (is_running k s ≡ true → is_own k s.action ≡ true)
      → is_running k (step r e s) ≡ true
      → is_own k (step r e s).action ≡ true
  step-own e own h = elim (step-running e h) [
    | inl old ↦ kept-own e (own old) old
    | inr new ↦ asked-own e new
  ]
