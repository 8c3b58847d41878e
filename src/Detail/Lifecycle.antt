-- ===== src/Detail/Lifecycle.antt =====
-- What the timeline of frontend-react/src/panels/InvoiceDetailPanel.tsx shows.
use billgen.Prelude.{
  ℕ, suc, ◌+◌, String, Bool, true, false, List, [], ◌∷◌, ◌==◌, ◌≡◌, refl, ap, ◌∙◌, sym, map, filter,
  length, length-append, all, ltb, if◌then◌else◌, Bool-cases, inl, inr, arith, ◌≤◌,
}
use billgen.Detail.Rail.{
  AuditEntry, TimelineItem, ItemStatus, done, current, answered, Rail, timeline, of_invoice,
  reverse, Wording, items_from, items_of, drawn, context_rail,
}

-- A history, oldest entry first: each is done, but the last.
abbrev pub history_of : List AuditEntry → List (String × ItemStatus)
history_of [] = []
history_of (e ∷ []) = (e.id, current) ∷ []
history_of (e ∷ f ∷ es) = (e.id, done) ∷ history_of (f ∷ es)

abbrev pub shown : TimelineItem → String × ItemStatus
shown i = (i.key, i.status)

abbrev items_in : Rail → List TimelineItem
items_in (timeline is) = is
items_in _ = []

length-filter_le : (p : AuditEntry → Bool) (es : List AuditEntry) → length (filter p es) ≤ length es
length-filter_le p [] = omega arith
length-filter_le p (e ∷ es) = elim (Bool-cases (p e)) [
  | inl h ↦ simp h (omega (arith, length-filter_le p es))
  | inr h ↦ simp h (omega (arith, length-filter_le p es))
]

-- What keeps the length of a list keeps the list.
filter-whole :
    (p : AuditEntry → Bool) (es : List AuditEntry)
    → length es ≤ length (filter p es)
    → (filter p es ≡ es) × (all p es ≡ true)
filter-whole p [] h = (refl, refl)
filter-whole p (e ∷ es) h = elim (Bool-cases (p e)) [
  | inl k ↦
      let (kept, every) = filter-whole p es (omega (arith, simp k at h)) in
      simp k (ap (λ l. e ∷ l) kept, every)
  | inr k ↦ ground (arith, length-filter_le p es, simp k at h)
]

not_shorter : (m n : ℕ) → ltb m n ≡ false → n ≤ m
not_shorter m n h = ground arith

length-reverse : (es : List AuditEntry) → length (reverse es) ≡ length es
length-reverse [] = refl
length-reverse (e ∷ es) = length-append (reverse es) (e ∷ []) ∙ omega (arith, length-reverse es)

last_status :
    (last index : ℕ) → last ≡ suc index → (if suc index == last then current else done) ≡ current
last_status last index h = ground arith

early_status :
    (last index : ℕ) → suc (suc index) ≤ last → (if suc index == last then current else done) ≡ done
early_status last index h = ground arith

cons-history :
    (e : AuditEntry) {s : ItemStatus} {l m : List (String × ItemStatus)}
    → s ≡ done
    → l ≡ m
    → ((e.id, s) ∷ l) ≡ ((e.id, done) ∷ m)
cons-history e p q = cc

module _ (wording : Wording) where
  items_from-history :
      (es : List AuditEntry) (last index : ℕ)
      → last ≡ index + length es
      → map shown (items_from wording last index es) ≡ history_of es
  items_from-history [] last index h = refl
  items_from-history (e ∷ []) last index h =
      ap (λ status. (e.id, status) ∷ []) (last_status last index (omega arith))
  items_from-history (e ∷ f ∷ es) last index h =
      cons-history e (early_status last index (omega arith))
        (items_from-history (f ∷ es) last (suc index) (omega arith))

  items_in-drawn : (l : List TimelineItem) → items_in (drawn wording l) ≡ l
  items_in-drawn [] = refl
  items_in-drawn (i ∷ l) = refl

  shown-history :
      (es : List AuditEntry) (items : List TimelineItem)
      → items_of wording es ≡ items
      → map shown items ≡ history_of (reverse es)
  unfolding items_of
  shown-history es items h =
      ap (map shown) (sym h)
      ∙ items_from-history (reverse es) (length es) 0 (omega (arith, length-reverse es))

  -- A timeline is shown only of answers that are all the invoice's own; it has each of them, oldest
  -- first, and all are done but the last, which is current.
  pub context_rail-history :
      (invoice_id : String) (returned : List AuditEntry) (items : List TimelineItem)
      → context_rail wording invoice_id (answered returned) ≡ timeline items
      → (all (of_invoice invoice_id) returned ≡ true)
        × (map shown items ≡ history_of (reverse returned))
  unfolding context_rail
  context_rail-history invoice_id returned items h =
      elim (Bool-cases (ltb (length (filter (of_invoice invoice_id) returned)) (length returned))) [
        | inl e ↦ cc (simp e at h)
        | inr e ↦
            let (kept, every) = filter-whole (of_invoice invoice_id) returned (
              not_shorter (length (filter (of_invoice invoice_id) returned)) (length returned) e) in
            (
              every,
              shown-history returned items (
                  rw kept at (
                    sym
                      (items_in-drawn (items_of wording (filter (of_invoice invoice_id) returned)))
                    ∙ ap items_in (simp e at h))),
            )
      ]
