-- ===== src/Detail/Fields.antt =====
-- The fields of the dialogs of frontend-react/src/panels/InvoiceDetailPanel.tsx over one event.
use billgen.Prelude.{
  String, Bool, true, false, not, ◌&&◌, Option, none, some, ◌===◌, ◌≡◌, refl, any, Bool-cases, inl,
  inr, arith,
}
use billgen.Queries.Status.{is_pending}
use billgen.Detail.{
  ActionKind, InvoiceResponse, Detail, Form, Request, status_of, action_pending, blank_form,
  payment_methods,
}
use billgen.Detail.Panel.{
  Event, opened, duplicated, closed, confirmed, submitted, reason_typed, amount_typed,
  method_chosen, ref_typed, notes_typed, date_picked, answered, duplicate_answered, is_offered,
  close_action, sent, requested, settled, typed, step, is_payment, asks_reason,
}

abbrev pub IsBlankClosed : Option ActionKind → Form → Type 0
IsBlankClosed none f = f ≡ blank_form
IsBlankClosed (some k) f = Unit

abbrev pub is_method : String → Bool
is_method v = any (λ m. m === v) payment_methods

-- A field is typed into only where its dialog shows it.
payment-open : (a : Option ActionKind) (f : Form) → is_payment a ≡ true → IsBlankClosed a f
payment-open none f h = cc
payment-open (some k) f h = tt

reason-open : (a : Option ActionKind) (f : Form) → asks_reason a ≡ true → IsBlankClosed a f
reason-open none f h = cc
reason-open (some k) f h = tt

and-first : (a b : Bool) → (a && b) ≡ true → a ≡ true
and-first a b h = ground arith

and-second : (a b : Bool) → (a && b) ≡ true → b ≡ true
and-second a b h = ground arith

module _ (r : InvoiceResponse) (s : Detail) where
  typed-blank :
      (b : Bool) (f : Form)
      → (b ≡ true → IsBlankClosed s.action f)
      → IsBlankClosed s.action s.form
      → IsBlankClosed (typed b f s).action (typed b f s).form
  typed-blank true f shown h = shown refl
  typed-blank false f shown h = h

  requested-blank :
      (o : Option Request)
      → IsBlankClosed s.action s.form
      → IsBlankClosed (requested o s).action (requested o s).form
  requested-blank none h = h
  requested-blank (some q) h = h

  pub step-blank :
      (e : Event)
      → IsBlankClosed s.action s.form
      → IsBlankClosed (step r e s).action (step r e s).form
  unfolding step close_action
  step-blank (opened j) h =
      elim (Bool-cases (is_offered r.status j && not (action_pending s.mutations))) [
        | inl e ↦ simp e tt
        | inr e ↦ simp e h
      ]
  step-blank duplicated h = requested-blank (sent r duplicated s) h
  step-blank closed h = refl
  step-blank confirmed h = requested-blank (sent r confirmed s) h
  step-blank submitted h = requested-blank (sent r submitted s) h
  step-blank (reason_typed v) h = typed-blank (asks_reason s.action) _ (reason-open s.action _) h
  step-blank (amount_typed v) h = typed-blank (is_payment s.action) _ (payment-open s.action _) h
  step-blank (date_picked d) h = typed-blank (is_payment s.action) _ (payment-open s.action _) h
  step-blank (method_chosen v) h =
      typed-blank (is_payment s.action && is_method v) _
        (λ e. payment-open s.action _ (and-first (is_payment s.action) (is_method v) e)) h
  step-blank (ref_typed v) h = typed-blank (is_payment s.action) _ (payment-open s.action _) h
  step-blank (notes_typed v) h = typed-blank (is_payment s.action) _ (payment-open s.action _) h
  step-blank (answered j true) h = elim (Bool-cases (is_pending (status_of j s.mutations))) [
    | inl e ↦ simp e refl
    | inr e ↦ simp e h
  ]
  step-blank (answered j false) h = elim (Bool-cases (is_pending (status_of j s.mutations))) [
    | inl e ↦ simp e h
    | inr e ↦ simp e h
  ]
  step-blank (duplicate_answered ok) h =
      elim (Bool-cases (is_pending s.mutations.duplicate_invoice)) [
        | inl e ↦ simp e h
        | inr e ↦ simp e h
      ]

  typed-known :
      (b : Bool) (f : Form)
      → (b ≡ true → is_method f.method ≡ true)
      → is_method s.form.method ≡ true
      → is_method (typed b f s).form.method ≡ true
  typed-known true f shown h = shown refl
  typed-known false f shown h = h

  requested-form : (o : Option Request) → (requested o s).form ≡ s.form
  requested-form none = refl
  requested-form (some q) = refl

  settled-known :
      (j : ActionKind) (ok : Bool)
      → is_method s.form.method ≡ true
      → is_method (settled j ok s).form.method ≡ true
  unfolding close_action
  settled-known j true h = refl
  settled-known j false h = h

  pub step-known :
      (e : Event) → is_method s.form.method ≡ true → is_method (step r e s).form.method ≡ true
  unfolding step close_action
  step-known (opened j) h =
      elim (Bool-cases (is_offered r.status j && not (action_pending s.mutations))) [
        | inl e ↦ simp e h
        | inr e ↦ simp e h
      ]
  step-known duplicated h = rw (requested-form (sent r duplicated s)) h
  step-known closed h = refl
  step-known confirmed h = rw (requested-form (sent r confirmed s)) h
  step-known submitted h = rw (requested-form (sent r submitted s)) h
  step-known (reason_typed v) h = typed-known (asks_reason s.action) _ (λ e. h) h
  step-known (amount_typed v) h = typed-known (is_payment s.action) _ (λ e. h) h
  step-known (date_picked d) h = typed-known (is_payment s.action) _ (λ e. h) h
  step-known (method_chosen v) h =
      typed-known (is_payment s.action && is_method v) _
        (λ e. and-second (is_payment s.action) (is_method v) e) h
  step-known (ref_typed v) h = typed-known (is_payment s.action) _ (λ e. h) h
  step-known (notes_typed v) h = typed-known (is_payment s.action) _ (λ e. h) h
  step-known (answered j ok) h = elim (Bool-cases (is_pending (status_of j s.mutations))) [
    | inl e ↦ simp e (settled-known j ok h)
    | inr e ↦ simp e h
  ]
  step-known (duplicate_answered ok) h =
      elim (Bool-cases (is_pending s.mutations.duplicate_invoice)) [
        | inl e ↦ simp e h
        | inr e ↦ simp e h
      ]
