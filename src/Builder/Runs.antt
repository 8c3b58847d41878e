-- ===== src/Builder/Runs.antt =====
-- What stays true of the panel of frontend-react/src/panels/InvoiceBuilderPanel.tsx over a run.
use billgen.Prelude.{
  ℕ, zero, suc, String, Bool, true, false, List, [], ◌∷◌, ◌++◌, Option, none, some, ◌===◌, ◌≡◌,
  refl, ap, ◌∙◌, find, map, length, get_elem?, ltb, Bool-cases, Option-cases, inl, inr,
}
use billgen.Builder.{
  Numbers, LineDraft, ProductResponse, Remote, new_product, set_line, without, default_rate, filled,
}
use billgen.Builder.Panel.{
  Builder, Action, client_chosen, comments_typed, name_typed, new_price_typed, new_rate_chosen,
  line_edited, product_picked, line_removed, line_added, new_item_closed, invoice_created,
  open_panel, answers_changed, item_created, act, run, settle, pick_product, seeded, dropped, moved,
  edited,
}
use billgen.Builder.Rates.{settle-default}

abbrev pub has_line : List LineDraft → Bool
has_line [] = false
has_line (l ∷ ls) = true

has_line-set_line :
    (f : LineDraft → LineDraft) (i : ℕ) (ls : List LineDraft)
    → has_line (set_line i f ls) ≡ has_line ls
has_line-set_line f i [] = refl
has_line-set_line f zero (l ∷ ls) = refl
has_line-set_line f (suc i) (l ∷ ls) = refl

has_line-map : (f : LineDraft → LineDraft) (ls : List LineDraft) → has_line (map f ls) ≡ has_line ls
has_line-map f [] = refl
has_line-map f (l ∷ ls) = refl

has_line-without :
    (i : ℕ) (ls : List LineDraft) → ltb 1 (length ls) ≡ true → has_line (without i ls) ≡ true
has_line-without i [] h = cc
has_line-without i (l ∷ []) h = cc
has_line-without zero (l ∷ m ∷ ls) h = refl
has_line-without (suc i) (l ∷ m ∷ ls) h = refl

has_line-append : (ls : List LineDraft) (l : LineDraft) → has_line (ls ++ (l ∷ [])) ≡ true
has_line-append [] l = refl
has_line-append (m ∷ ms) l = refl

module _ (numbers : Numbers) where
  -- The panel has a line, and the effect has seen the default rate.
  abbrev pub IsSound : Remote → Builder → Type 0
  IsSound r s = (has_line s.lines ≡ true) × (s.applied_default ≡ default_rate numbers r)

  -- The answers at the last action of a run.
  abbrev pub last_remote : Remote → List (Remote × Action) → Remote
  last_remote r [] = r
  last_remote r ((later, a) ∷ events) = last_remote later events

  seeded-lines :
      (r : Remote) (i : ℕ) (o : Option LineDraft) (s : Builder)
      → (seeded numbers r i o s).lines ≡ s.lines
  seeded-lines r i none s = refl
  seeded-lines r i (some l) s = refl

  dropped-has_line :
      (r : Remote) (o : Option ℕ) (p : ProductResponse) (s : Builder)
      → has_line s.lines ≡ true
      → has_line (dropped numbers r o p s).lines ≡ true
  dropped-has_line r none p s h = h
  dropped-has_line r (some i) p s h = has_line-set_line (filled numbers r p) i s.lines ∙ h

  pick_product-has_line :
      (r : Remote) (i : ℕ) (id : String) (s : Builder)
      → has_line s.lines ≡ true
      → has_line (pick_product numbers r i id s).lines ≡ true
  unfolding pick_product
  pick_product-has_line r i id s h = elim (Bool-cases (id === "")) [
    | inl e ↦ simp e (has_line-set_line _ i s.lines ∙ h)
    | inr e ↦ simp e (elim (Bool-cases (id === new_product)) [
      | inl f ↦ simp f (ap has_line (seeded-lines r i (get_elem? s.lines i) s) ∙ h)
      | inr f ↦ simp f (elim (Option-cases (find (λ p. p.id === id) r.catalog)) [
        | inl g ↦ simp g h
        | inr (p, g) ↦ simp g (has_line-set_line (filled numbers r p) i s.lines ∙ h)
      ])
    ])
  ]

  act-has_line :
      (r : Remote) (a : Action) (s : Builder)
      → has_line s.lines ≡ true
      → has_line (act numbers r a s).lines ≡ true
  unfolding act
  act-has_line r (client_chosen id) s h = h
  act-has_line r (comments_typed v) s h = h
  act-has_line r (name_typed v) s h = h
  act-has_line r (new_price_typed v) s h = h
  act-has_line r (new_rate_chosen v) s h = h
  act-has_line r (line_edited i e) s h = has_line-set_line (edited e) i s.lines ∙ h
  act-has_line r (product_picked i id) s h = pick_product-has_line r i id s h
  act-has_line r (line_removed i) s h = elim (Bool-cases (ltb 1 (length s.lines))) [
    | inl e ↦ simp e (has_line-without i s.lines e)
    | inr e ↦ simp e h
  ]
  act-has_line r line_added s h = has_line-append s.lines _
  act-has_line r new_item_closed s h = h
  act-has_line r (item_created asked p) s h = dropped-has_line asked s.new_item_for p s h
  act-has_line r invoice_created s h = refl
  act-has_line r answers_changed s h = h

  settle-has_line :
      (r : Remote) (s : Builder) → has_line (settle numbers r s).lines ≡ has_line s.lines
  unfolding settle
  settle-has_line r s = elim (Bool-cases (s.applied_default === default_rate numbers r)) [
    | inl e ↦ simp e
    | inr e ↦ simp e (has_line-map (moved s.applied_default (default_rate numbers r)) s.lines)
  ]

  run-IsSound :
      (events : List (Remote × Action)) (r : Remote) (s : Builder)
      → IsSound r s
      → IsSound (last_remote r events) (run numbers events s)
  unfolding run
  run-IsSound [] r s h = h
  run-IsSound ((later, a) ∷ events) r s (lines, applied) =
      run-IsSound events later (settle numbers later (act numbers later a s)) (
        settle-has_line later (act numbers later a s) ∙ act-has_line later a s lines,
        settle-default numbers later (act numbers later a s),
      )

  -- However the panel is used and whatever the queries answer in between, it has a line, and the
  -- default rate that its effect has seen is that of the last answers.
  pub open_panel-IsSound :
      (events : List (Remote × Action)) (r : Remote)
      → IsSound (last_remote r events) (run numbers events (open_panel numbers r))
  unfolding open_panel
  open_panel-IsSound events r = run-IsSound events r (open_panel numbers r) (refl, refl)
