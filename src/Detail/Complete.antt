-- ===== src/Detail/Complete.antt =====
-- What the requests of the panel of frontend-react/src/panels/InvoiceDetailPanel.tsx hold.
use billgen.Prelude.{
  String, Bool, true, false, not, List, [], ◌∷◌, Option, none, some, ◌===◌, ◌≡◌, refl, All,
  Bool-cases, inl, inr, arith,
}
use billgen.Detail.{
  ActionKind, issue, delete, void, credit_note, payment, InvoiceResponse, Detail, Form, open_detail,
  Request, issues, deletes, duplicates, voids, credits, pays, action_pending,
}
use billgen.Detail.Panel.{
  Event, duplicated, confirmed, submitted, payment_of, submit_action, confirm_action,
  submit_disabled, is_filled, sent, step, requests, or_none, prepend,
}
use billgen.Detail.Fields.{is_method}
use billgen.Detail.Forms.{IsSound, step-IsSound, idle-IsSound}

abbrev pub IsText : Option String → Type 0
IsText none = Unit
IsText (some v) = (v === "") ≡ false

-- What the API wants of a request: a reason; an amount, a date, a known method, and no text that is
-- empty.
abbrev pub IsFilled : Request → Type 0
IsFilled (issues id) = Unit
IsFilled (deletes id) = Unit
IsFilled (duplicates id) = Unit
IsFilled (voids id reason) = (reason === "") ≡ false
IsFilled (credits id reason) = (reason === "") ≡ false
IsFilled (pays b) =
    ((b.amount === "") ≡ false)
    × ((b.paid_on === "") ≡ false)
    × (is_method b.method ≡ true)
    × IsText b.reference
    × IsText b.notes

abbrev AllFilled : Option Request → Type 0
AllFilled none = Unit
AllFilled (some q) = IsFilled q

or_none-IsText : (v : String) → IsText (or_none v)
or_none-IsText v = elim (Bool-cases (v === "")) [ inl e ↦ simp e tt | inr e ↦ simp e refl ]

refuted : (b : Bool) → not b ≡ true → b ≡ false
refuted b h = ground arith

module _ (r : InvoiceResponse) (f : Form) (known : is_method f.method ≡ true) where
  payment_of-IsFilled :
      (d : Option String) → (f.amount === "") ≡ false → AllFilled (payment_of r f d)
  payment_of-IsFilled none h = tt
  payment_of-IsFilled (some d) h = elim (Bool-cases (d === "")) [
    | inl e ↦ simp e tt
    | inr e ↦ simp e (h, refl, known, or_none-IsText f.payment_ref, or_none-IsText f.notes)
  ]

  submit_action-IsFilled :
      (a : Option ActionKind) → is_filled f a ≡ true → AllFilled (submit_action r f a)
  unfolding submit_action
  submit_action-IsFilled none h = tt
  submit_action-IsFilled (some issue) h = tt
  submit_action-IsFilled (some delete) h = tt
  submit_action-IsFilled (some void) h = refuted (f.reason === "") h
  submit_action-IsFilled (some credit_note) h = refuted (f.reason === "") h
  submit_action-IsFilled (some payment) h =
      payment_of-IsFilled f.paid_on (refuted (f.amount === "") h)

confirm_action-IsFilled :
    (r : InvoiceResponse) (a : Option ActionKind) → AllFilled (confirm_action r a)
unfolding confirm_action
confirm_action-IsFilled r none = tt
confirm_action-IsFilled r (some issue) = tt
confirm_action-IsFilled r (some delete) = tt
confirm_action-IsFilled r (some void) = tt
confirm_action-IsFilled r (some credit_note) = tt
confirm_action-IsFilled r (some payment) = tt

sent-IsFilled :
    (r : InvoiceResponse) (e : Event) (s : Detail)
    → is_method s.form.method ≡ true
    → AllFilled (sent r e s)
unfolding sent
sent-IsFilled r duplicated s h = elim (Bool-cases (action_pending s.mutations)) [
  | inl p ↦ simp p tt
  | inr p ↦ simp p tt
]
sent-IsFilled r confirmed s h = confirm_action-IsFilled r s.action
sent-IsFilled r submitted s h = elim (Bool-cases (submit_disabled s)) [
  | inl d ↦ simp d tt
  | inr d ↦ elim (Bool-cases (is_filled s.form s.action)) [
    | inl f ↦ simp (d, f) (submit_action-IsFilled r s.form h s.action f)
    | inr f ↦ simp (d, f) tt
  ]
]
sent-IsFilled r e s h = tt

prepend-IsFilled :
    (o : Option Request) (rest : List Request)
    → AllFilled o
    → All IsFilled rest
    → All IsFilled (prepend o rest)
prepend-IsFilled none rest h t = t
prepend-IsFilled (some q) rest h t = (h, t)

requests_from-AreFilled :
    (events : List (InvoiceResponse × Event)) (s : Detail)
    → IsSound s
    → All IsFilled (requests events s)
unfolding requests
requests_from-AreFilled [] s h = tt
requests_from-AreFilled ((r, e) ∷ events) s h =
    prepend-IsFilled (sent r e s) (requests events (step r e s)) (sent-IsFilled r e s h.known)
      (requests_from-AreFilled events (step r e s) (step-IsSound r s h e))

-- Every request that the panel makes is complete, in any run from its opening: a reason is given to
-- void or credit; a payment has an amount, a date, a method of the API's list, and a reference and
-- notes only where they are not empty.
pub requests-AreFilled :
    (events : List (InvoiceResponse × Event)) → All IsFilled (requests events open_detail)
requests-AreFilled events = requests_from-AreFilled events open_detail idle-IsSound
