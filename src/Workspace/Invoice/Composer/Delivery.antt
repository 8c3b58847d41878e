-- ===== src/Workspace/Invoice/Composer/Delivery.antt =====
-- How the delivery panel is reached, and what keeps it open.
use billgen.Prelude.{
  true, false, not, any, ◌&&◌, List, [], ◌∷◌, ◌++◌, Option, none, some, ◌≡◌, refl, ap, ◌∙◌, arith,
  Bool-cases, ◌⊎◌, inl, inr,
}
use billgen.Workspace.Invoice.Draft.{DraftCustomer, InvoiceDraft, given, customer_step, review_step}
use billgen.Workspace.Invoice.Readiness.{
  Texts, due_before_issue, is_usable, check_readiness, is_ready,
}
use billgen.Workspace.Invoice.Readiness.Gate.{is_there, check_readiness_lem}
use billgen.Workspace.Invoice.Items.{CatalogItem}
use billgen.Workspace.Invoice.Composer.{
  Composer, Action, act, run, is_at, back_pressed, continue_pressed, step_clicked, customer_changed,
  customer_selected, create_requested, create_closed, create_submitted, item_added, catalog_picked,
  line_opened, line_closed, line_removed, line_changed, details_changed, review_back,
  review_continue,
}

abbrev pub changed : List Action
changed =
    step_clicked customer_step
    ∷ customer_changed
    ∷ continue_pressed
    ∷ continue_pressed
    ∷ continue_pressed
    ∷ []

module _ (texts : Texts) (catalog : List CatalogItem) where
  -- An action keeps the panel open or shut, but for the review's Continue on a ready draft.
  act-delivering :
      (a : Action) (s : Composer)
      → ((act texts catalog a s).delivering ≡ s.delivering)
        ⊎ ((a ≡ review_continue)
            × (is_ready (check_readiness texts s.draft) ≡ true)
            × ((act texts catalog a s).delivering ≡ true))
  unfolding act
  act-delivering back_pressed s = inl (ground arith)
  act-delivering continue_pressed s = inl (ground arith)
  act-delivering (step_clicked step) s = inl (ground arith)
  act-delivering customer_changed s = inl (ground arith)
  act-delivering (customer_selected c) s = inl (ground arith)
  act-delivering create_requested s = inl (ground arith)
  act-delivering create_closed s = inl (ground arith)
  act-delivering (create_submitted c) s = inl (ground arith)
  act-delivering (item_added key) s = inl (ground arith)
  act-delivering (catalog_picked id key) s = inl (ground arith)
  act-delivering (line_opened key) s = inl (ground arith)
  act-delivering line_closed s = inl (ground arith)
  act-delivering line_removed s = inl (ground arith)
  act-delivering (line_changed change) s = inl (ground arith)
  act-delivering (details_changed change) s = inl (ground arith)
  act-delivering review_back s = inl (ground arith)
  act-delivering review_continue s = elim (Bool-cases (is_ready (check_readiness texts s.draft))) [
    | inl ready ↦ elim (Bool-cases (is_at review_step s.step && not s.delivering)) [
      | inl opened ↦ inr (refl, ready, ground (arith, opened, ready))
      | inr shut ↦ inl (ground (arith, shut, ready))
    ]
    | inr blocked ↦ inl (ground (arith, blocked))
  ]

  act-keeps :
      (a : Action) (s : Composer) → s.delivering ≡ true → (act texts catalog a s).delivering ≡ true
  act-keeps a s h = elim (act-delivering a s) [
    | inl same ↦ same ∙ h
    | inr (e, ready, opened) ↦ opened
  ]

  -- The delivery panel is reached only through the readiness check: where it was shut and is open after
  -- some actions, one of them is the review's Continue, pressed on a draft that was ready then.
  pub delivering-was_ready :
      (actions : List Action) (s : Composer)
      → s.delivering ≡ false
      → (run texts catalog actions s).delivering ≡ true
      → (before after : List Action) × (actions ≡ before ++ (review_continue ∷ after))
        × (is_ready (check_readiness texts (run texts catalog before s).draft) ≡ true)
  unfolding run
  delivering-was_ready [] s shut reached = cc
  delivering-was_ready (a ∷ actions) s shut reached = elim (act-delivering a s) [
    | inl same ↦
        let (before, after, e, ready) =
          delivering-was_ready actions (act texts catalog a s) (same ∙ shut) reached in
        (a ∷ before, after, ap (λ l. a ∷ l) e, ready)
    | inr (e, ready, opened) ↦ ([], actions, ap (λ b. b ∷ actions) e, ready)
  ]

  -- Once the delivery panel is open, no sequence of actions shuts it: neither going back to an earlier
  -- step nor changing the draft.
  delivering-kept :
      (actions : List Action) (s : Composer)
      → s.delivering ≡ true
      → (run texts catalog actions s).delivering ≡ true
  unfolding run
  delivering-kept [] s h = h
  delivering-kept (a ∷ actions) s h =
      delivering-kept actions (act texts catalog a s) (act-keeps a s h)

  blocked : (d : InvoiceDraft) → d.customer ≡ none → is_ready (check_readiness texts d) ≡ false
  blocked d e =
      check_readiness_lem texts d
      ∙ ap
          (λ c.
            (is_there c && given d.issue_date)
            && (not (due_before_issue texts d.due_date d.issue_date)
                && any (is_usable texts) d.lines))
          e

  run-changed :
      (s : Composer) (c : Option DraftCustomer)
      → s.draft.customer ≡ c
      → s.step ≡ review_step
      → ((run texts catalog changed s).step ≡ review_step)
        × ((run texts catalog changed s).draft.customer ≡ none)
  unfolding run act
  run-changed s none e at = ground (arith, e, at)
  run-changed s (some c) e at = ground (arith, e, at)

  -- From an open delivery panel, the stepper leads back to the customer, whom Change removes, and three
  -- times Continue leads to the delivery panel again, past the review, with a draft that is not ready.
  delivering-unready :
      (s : Composer)
      → s.delivering ≡ true
      → s.step ≡ review_step
      → let s' = run texts catalog changed s in
        (s'.step ≡ review_step)
        × (s'.delivering ≡ true)
        × (is_ready (check_readiness texts s'.draft) ≡ false)
  delivering-unready s h at =
      let (step, gone) = run-changed s s.draft.customer refl at in
      (step, delivering-kept changed s h, blocked (run texts catalog changed s).draft gone)
