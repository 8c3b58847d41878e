-- ===== src/Builder/Rates.antt =====
-- The rates of the lines of frontend-react/src/panels/InvoiceBuilderPanel.tsx, over runs of the panel.
use mathlib.Core.Option.{some-injective}
use text.Mathlib.TextPositions.{eq_refl}
use billgen.Prelude.{
  ℕ, zero, suc, String, Bool, true, false, List, [], ◌∷◌, ◌++◌, Option, none, some, ◌===◌, ◌≡◌,
  refl, ap, ◌∙◌, find, any, map, get_elem?, arith, Bool-cases, inl, inr, eq_iff,
}
use billgen.Builder.{
  Numbers, LineDraft, ProductResponse, Remote, RateOption, new_product, category_of, set_line,
  default_rate, product_rate, filled, options_for, rate_options,
}
use billgen.Builder.Panel.{
  Builder, client_chosen, product_picked, act, run, settle, pick_product, moved,
}

get_elem?-set_line :
    (f : LineDraft → LineDraft) (ls : List LineDraft) (i : ℕ) {l : LineDraft}
    → get_elem? ls i ≡ some l
    → get_elem? (set_line i f ls) i ≡ some (f l)
get_elem?-set_line f [] i h = cc
get_elem?-set_line f (x ∷ xs) zero h = ap (λ x. some (f x)) (some-injective _ _ h)
get_elem?-set_line f (x ∷ xs) (suc i) h = get_elem?-set_line f xs i h

get_elem?-map :
    (f : LineDraft → LineDraft) (ls : List LineDraft) (i : ℕ) {l : LineDraft}
    → get_elem? ls i ≡ some l
    → get_elem? (map f ls) i ≡ some (f l)
get_elem?-map f [] i h = cc
get_elem?-map f (x ∷ xs) zero h = ap (λ x. some (f x)) (some-injective _ _ h)
get_elem?-map f (x ∷ xs) (suc i) h = get_elem?-map f xs i h

moved-other :
    (previous rate : String) (l : LineDraft)
    → (l.vat_rate === previous) ≡ false
    → moved previous rate l ≡ l
moved-other previous rate l h = simp h

any-last :
    (p : RateOption → Bool) (os : List RateOption) (o : RateOption)
    → p o ≡ true
    → any p (os ++ (o ∷ [])) ≡ true
any-last p [] o h = simp h
any-last p (x ∷ xs) o h = ground (arith, any-last p xs o h)

abbrev rate_held : Option LineDraft → Option String
rate_held none = none
rate_held (some l) = some l.vat_rate

abbrev pub rate_at : ℕ → Builder → Option String
rate_at i s = rate_held (get_elem? s.lines i)

module _ (numbers : Numbers) where
  settle-again :
      (r : Remote) (s : Builder)
      → s.applied_default ≡ default_rate numbers r
      → settle numbers r s ≡ s
  unfolding settle
  settle-again r s h = simp ((eq_iff s.applied_default (default_rate numbers r)).1 h)

  settle-kept :
      (r : Remote) (s : Builder) (i : ℕ) {l : LineDraft}
      → get_elem? s.lines i ≡ some l
      → (l.vat_rate === s.applied_default) ≡ false
      → get_elem? (settle numbers r s).lines i ≡ some l
  unfolding settle
  settle-kept r s i h k = elim (Bool-cases (s.applied_default === default_rate numbers r)) [
    | inl e ↦ simp e h
    | inr e ↦ simp e (
        get_elem?-map (moved s.applied_default (default_rate numbers r)) s.lines i h
        ∙ ap some (moved-other s.applied_default (default_rate numbers r) _ k))
  ]

  settle-line :
      (r : Remote) (s : Builder) (i : ℕ) (l : LineDraft)
      → get_elem? s.lines i ≡ some l
      → (m : LineDraft) × (get_elem? (settle numbers r s).lines i ≡ some m)
  unfolding settle
  settle-line r s i l h = elim (Bool-cases (s.applied_default === default_rate numbers r)) [
    | inl e ↦ (l, simp e h)
    | inr e ↦
        let move = moved s.applied_default (default_rate numbers r) in
        (move l, simp e (get_elem?-map move s.lines i h))
  ]

  pub settle-default :
      (r : Remote) (s : Builder) → (settle numbers r s).applied_default ≡ default_rate numbers r
  unfolding settle
  settle-default r s = elim (Bool-cases (s.applied_default === default_rate numbers r)) [
    | inl e ↦ simp e ((eq_iff s.applied_default (default_rate numbers r)).0 e)
    | inr e ↦ simp e
  ]

  options_for-rate :
      (r : Remote) (rate : String) → any (λ o. o.rate === rate) (options_for numbers r rate) ≡ true
  unfolding options_for
  options_for-rate r rate = elim (Bool-cases (any (λ o. o.rate === rate) (rate_options r))) [
    | inl e ↦ simp e
    | inr e ↦ simp e (any-last (λ o. o.rate === rate) (rate_options r) _ (eq_refl rate))
  ]

  pick-line :
      (r : Remote) (s : Builder) (i : ℕ) (id : String) (p : ProductResponse) {l : LineDraft}
      → get_elem? s.lines i ≡ some l
      → find (λ q. q.id === id) r.catalog ≡ some p
      → (id === "") ≡ false
      → (id === new_product) ≡ false
      → (get_elem? (pick_product numbers r i id s).lines i ≡ some (filled numbers r p l))
        × ((pick_product numbers r i id s).applied_default ≡ s.applied_default)
  unfolding pick_product
  pick-line r s i id p h found blank fresh =
      simp (blank, fresh, found) (get_elem?-set_line (filled numbers r p) s.lines i h, refl)

  charged-rate :
      (r : Remote) (p : ProductResponse)
      → (category_of r === "S") ≡ false
      → product_rate numbers r p ≡ default_rate numbers r
  charged-rate r p h = simp h

  product_then_client :
      (r later : Remote) (s : Builder) (i : ℕ) (id client : String) (p : ProductResponse)
      {l : LineDraft}
      → get_elem? s.lines i ≡ some l
      → find (λ q. q.id === id) r.catalog ≡ some p
      → (id === "") ≡ false
      → (id === new_product) ≡ false
      → s.applied_default ≡ default_rate numbers r
      → (product_rate numbers r p === default_rate numbers r) ≡ false
      → rate_at i (run numbers ((r, product_picked i id) ∷ (later, client_chosen client) ∷ []) s)
        ≡ some (product_rate numbers r p)
  unfolding run act
  product_then_client r later s i id client p h found blank fresh applied other =
      let picked = pick_product numbers r i id s in
      let (at, kept) = pick-line r s i id p h found blank fresh in
      let again = settle-again r picked (kept ∙ applied) in
      ap rate_held (
        settle-kept later (record (settle numbers r picked) { client_id = client }) i
          (ap (λ b. get_elem? b.lines i) again ∙ at)
          (ap (λ b. product_rate numbers r p === b.applied_default) again
            ∙ ap (λ d. product_rate numbers r p === d) (kept ∙ applied)
            ∙ other))

  client_then_product :
      (later : Remote) (s : Builder) (i : ℕ) (id client : String) (p : ProductResponse)
      {l : LineDraft}
      → get_elem? s.lines i ≡ some l
      → find (λ q. q.id === id) later.catalog ≡ some p
      → (id === "") ≡ false
      → (id === new_product) ≡ false
      → (category_of later === "S") ≡ false
      → rate_at i
          (run numbers ((later, client_chosen client) ∷ (later, product_picked i id) ∷ []) s)
        ≡ some (default_rate numbers later)
  unfolding run act
  client_then_product later s i id client p h found blank fresh charged =
      let asked = record s { client_id = client } in
      let (m, e) = settle-line later asked i _ h in
      let (at, kept) = pick-line later (settle numbers later asked) i id p e found blank fresh in
      let again =
        settle-again later (pick_product numbers later i id (settle numbers later asked))
          (kept ∙ settle-default later asked) in
      ap (λ b. rate_at i b) again ∙ ap rate_held at ∙ ap some (charged-rate later p charged)

  -- A line of the panel, whose effect has seen the default rate, and a product that is in the catalog
  -- throughout: where it is picked for the line while its rate is not the default, and then a client is
  -- chosen whose category is not the standard one, the line keeps the product's rate; where the client
  -- is chosen first, it has the default rate of the category.
  pub order_of_choices :
      (r later : Remote) (s : Builder) (i : ℕ) (id client : String) (p q : ProductResponse)
      {l : LineDraft}
      → get_elem? s.lines i ≡ some l
      → find (λ o. o.id === id) r.catalog ≡ some p
      → find (λ o. o.id === id) later.catalog ≡ some q
      → (id === "") ≡ false
      → (id === new_product) ≡ false
      → s.applied_default ≡ default_rate numbers r
      → (product_rate numbers r p === default_rate numbers r) ≡ false
      → (category_of later === "S") ≡ false
      → (rate_at i (run numbers ((r, product_picked i id) ∷ (later, client_chosen client) ∷ []) s)
          ≡ some (product_rate numbers r p))
        × (rate_at i
              (run numbers ((later, client_chosen client) ∷ (later, product_picked i id) ∷ []) s)
            ≡ some (default_rate numbers later))
  order_of_choices r later s i id client p q h found again blank fresh applied other charged = (
    product_then_client r later s i id client p h found blank fresh applied other,
    client_then_product later s i id client q h again blank fresh charged,
  )
