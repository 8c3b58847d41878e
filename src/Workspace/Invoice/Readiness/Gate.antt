-- ===== src/Workspace/Invoice/Readiness/Gate.antt =====
-- When a draft may be issued, and that warnings never stand in the way.
use billgen.Prelude.{
  ℕ, Bool, true, false, not, ◌&&◌, List, [], ◌∷◌, ◌++◌, Option, none, some, ◌≡◌, refl, ◌∙◌, ap, ltb,
  filter, any, length, arith, Bool-cases, inl, inr,
}
use billgen.Workspace.Invoice.Draft.{DraftCustomer, InvoiceDraft, given}
use billgen.Workspace.Invoice.Readiness.{
  Texts, is_ready, check_readiness, due_before_issue, is_usable, is_zero_priced, due_items,
  lines_item, zero_items, payment_item, reference_item, customer_item, vat_item, dates_item,
  lacks_vat,
}

abbrev pub is_there : {A : Type 0} → Option A → Bool
is_there none = false
is_there (some a) = true

any-filter-length :
    {A : Type 0} (p : A → Bool) (xs : List A) → ltb 0 (length (filter p xs)) ≡ any p xs
any-filter-length p [] = refl
any-filter-length p (x ∷ xs) = elim (Bool-cases (p x)) [
  | inl keep ↦ rw keep (ground arith)
  | inr drop ↦ rw drop (any-filter-length p xs)
]

-- What the items say, as conditions.
abbrev verdict : Option DraftCustomer → Bool → Bool → Bool → Bool
verdict c issue due lines = (is_there c && issue) && (not due && lines)

gate :
    (texts : Texts) (c : Option DraftCustomer) (vat issue due lines pay ref : Bool) (unpriced : ℕ)
    → is_ready (
        customer_item c
        ∷ vat_item vat
        ∷ dates_item issue
        ∷ (due_items due
            ++ (lines_item lines
                ∷ (zero_items texts unpriced ++ (payment_item pay ∷ reference_item ref ∷ [])))))
      ≡ verdict c issue due lines
unfolding is_ready
gate texts c vat issue due lines pay ref unpriced = ground arith

-- A draft may be issued exactly where it has a customer and an issue date, is not due before that
-- date, and has a line with a description. Prices, the VAT number, the IBAN and the reference decide
-- nothing.
pub check_readiness_lem :
    (texts : Texts) (draft : InvoiceDraft)
    → is_ready (check_readiness texts draft) ≡ (
        (is_there draft.customer && given draft.issue_date)
        && (not (due_before_issue texts draft.due_date draft.issue_date)
            && any (is_usable texts) draft.lines))
unfolding check_readiness
check_readiness_lem texts draft =
    gate texts draft.customer (lacks_vat draft.customer) (given draft.issue_date)
      (due_before_issue texts draft.due_date draft.issue_date)
      (ltb 0 (length (filter (is_usable texts) draft.lines))) (given draft.payment.iban)
      (given draft.reference)
      (length (filter (is_zero_priced texts) (filter (is_usable texts) draft.lines)))
    ∙ ap
        (λ b.
          (is_there draft.customer && given draft.issue_date)
          && (not (due_before_issue texts draft.due_date draft.issue_date) && b))
        (any-filter-length (is_usable texts) draft.lines)
