-- ===== src/Detail/Guards.antt =====
-- Which requests the panel of frontend-react/src/panels/InvoiceDetailPanel.tsx makes.
use billgen.Prelude.{
  String, Bool, true, false, List, [], ◌∷◌, Option, none, some, ◌≡◌, refl, any, All, Bool-cases,
  inl, inr, arith,
}
use billgen.Queries.Status.{is_pending}
use billgen.Detail.{
  ActionKind, issue, delete, void, credit_note, payment, InvoiceResponse, Detail, Form, open_detail,
  Request, issues, deletes, duplicates, voids, credits, pays, status_of, action_pending,
}
use billgen.Detail.Panel.{
  Event, opened, duplicated, closed, confirmed, submitted, reason_typed, amount_typed,
  method_chosen, ref_typed, notes_typed, date_picked, answered, duplicate_answered, is_offered,
  close_action, submit_action, confirm_action, submit_disabled, is_filled, sent, requested, settled,
  typed, step, prepend, requests,
}

abbrev pub same_kind : ActionKind → ActionKind → Bool
same_kind issue issue = true
same_kind delete delete = true
same_kind void void = true
same_kind credit_note credit_note = true
same_kind payment payment = true
same_kind _ _ = false

abbrev pub is_action : ActionKind → Option ActionKind → Bool
is_action k none = false
is_action k (some j) = same_kind k j

abbrev pub is_request : ActionKind → Request → Bool
is_request issue (issues id) = true
is_request delete (deletes id) = true
is_request void (voids id reason) = true
is_request credit_note (credits id reason) = true
is_request payment (pays b) = true
is_request _ _ = false

-- What a request says of the action: nothing, or that it is not of kind k.
abbrev pub asks_for : ActionKind → Option Request → Bool
asks_for k none = false
asks_for k (some q) = is_request k q

pub requested-action : (o : Option Request) (s : Detail) → (requested o s).action ≡ s.action
requested-action none s = refl
requested-action (some q) s = refl

pub typed-action : (b : Bool) (f : Form) (s : Detail) → (typed b f s).action ≡ s.action
typed-action true f s = refl
typed-action false f s = refl

opened-action :
    (k j : ActionKind) (status : String)
    → is_offered status k ≡ false
    → is_offered status j ≡ true
    → same_kind k j ≡ false
opened-action k j status h e = ground arith

settled-action :
    (k j : ActionKind) (ok : Bool) (s : Detail)
    → is_action k s.action ≡ false
    → is_action k (settled j ok s).action ≡ false
unfolding close_action
settled-action k j true s h = refl
settled-action k j false s h = h

duplicates-other : (k : ActionKind) (id : String) → is_request k (duplicates id) ≡ false
duplicates-other k id = ground arith

module _ (k : ActionKind) (r : InvoiceResponse) (s : Detail)
    (other : is_action k s.action ≡ false) where
  step-action :
      (e : Event) → is_offered r.status k ≡ false → is_action k (step r e s).action ≡ false
  unfolding step close_action
  step-action (opened j) h = elim (Bool-cases (is_offered r.status j)) [
    | inl e ↦ elim (Bool-cases (action_pending s.mutations)) [
      | inl p ↦ simp (e, p) other
      | inr p ↦ simp (e, p) (opened-action k j r.status h e)
    ]
    | inr e ↦ simp e other
  ]
  step-action duplicated h = rw (requested-action (sent r duplicated s) s) other
  step-action closed h = refl
  step-action confirmed h = rw (requested-action (sent r confirmed s) s) other
  step-action submitted h = rw (requested-action (sent r submitted s) s) other
  step-action (reason_typed v) h = rw (typed-action _ _ s) other
  step-action (amount_typed v) h = rw (typed-action _ _ s) other
  step-action (date_picked d) h = rw (typed-action _ _ s) other
  step-action (method_chosen v) h = rw (typed-action _ _ s) other
  step-action (ref_typed v) h = rw (typed-action _ _ s) other
  step-action (notes_typed v) h = rw (typed-action _ _ s) other
  step-action (answered j ok) h = elim (Bool-cases (is_pending (status_of j s.mutations))) [
    | inl e ↦ simp e (settled-action k j ok s other)
    | inr e ↦ simp e other
  ]
  step-action (duplicate_answered ok) h =
      elim (Bool-cases (is_pending s.mutations.duplicate_invoice)) [
        | inl e ↦ simp e other
        | inr e ↦ simp e other
      ]

  -- An action that the panel has not taken is not asked for.
  submit_action-other :
      (f : Form) (a : Option ActionKind)
      → is_action k a ≡ false
      → asks_for k (submit_action r f a) ≡ false
  unfolding submit_action
  submit_action-other f a h = ground arith

  confirm_action-other :
      (a : Option ActionKind) → is_action k a ≡ false → asks_for k (confirm_action r a) ≡ false
  unfolding confirm_action
  confirm_action-other a h = ground arith

  pub sent-other : (e : Event) → asks_for k (sent r e s) ≡ false
  unfolding sent
  sent-other duplicated = elim (Bool-cases (action_pending s.mutations)) [
    | inl e ↦ simp e
    | inr e ↦ simp e (duplicates-other k r.id)
  ]
  sent-other confirmed = confirm_action-other s.action other
  sent-other submitted = elim (Bool-cases (submit_disabled s)) [
    | inl e ↦ simp e
    | inr e ↦ elim (Bool-cases (is_filled s.form s.action)) [
      | inl f ↦ simp (e, f) (submit_action-other s.form s.action other)
      | inr f ↦ simp (e, f)
    ]
  ]
  sent-other e = refl

prepend-other :
    (k : ActionKind) (o : Option Request) (rest : List Request)
    → asks_for k o ≡ false
    → any (is_request k) rest ≡ false
    → any (is_request k) (prepend o rest) ≡ false
prepend-other k none rest h e = e
prepend-other k (some q) rest h e = simp h e

requests-other :
    (k : ActionKind) (events : List (InvoiceResponse × Event)) (s : Detail)
    → is_action k s.action ≡ false
    → All (λ e. is_offered e.0.status k ≡ false) events
    → any (is_request k) (requests events s) ≡ false
unfolding requests
requests-other k [] s h never = refl
requests-other k ((r, e) ∷ events) s h (n, never) =
    prepend-other k (sent r e s) (requests events (step r e s)) (sent-other k r s h e)
      (requests-other k events (step r e s) (step-action k r s h e n) never)

-- However the panel is used, and however the invoice changes meanwhile: an action that none of its
-- statuses during the run allows is not requested, be it to issue or delete (a draft only) or to
-- void, credit or record a payment (neither a draft nor voided).
pub never_requested :
    (k : ActionKind) (events : List (InvoiceResponse × Event))
    → All (λ e. is_offered e.0.status k ≡ false) events
    → any (is_request k) (requests events open_detail) ≡ false
never_requested k events never = requests-other k events open_detail refl never
