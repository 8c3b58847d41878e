-- ===== src/Onboarding/Touring.antt =====
-- When the tour of frontend-react/src/lib/tour.ts is asked for.
use billgen.Prelude.{
  String, Bool, true, false, ◌&&◌, ◌||◌, List, [], ◌∷◌, ◌++◌, ◌≡◌, refl, ◌∙◌, ◌⊎◌, arith, any, map,
  Bool-cases, inl, inr, ◌==◌, ltb,
}
use billgen.Queries.Status.{MutationStatus, is_pending}
use billgen.Onboarding.{
  OnboardingStatus, StepKey, legal, Screen, at_language, at_company, at_profile, at_legal, at_done,
  at_seed, Wizard, Tour, Request, completes, key_of, index_of, mount,
}
use billgen.Onboarding.Steps.{
  Event, answered, completing, tour_requested, Run, moved, settled, marked, set_step, typed,
  stepped_to, next_pressed, back_pressed, texts_read, next_key, back_key, is_done, has_texts,
  finish_pressed,
}
use billgen.Onboarding.Requests.{step, run, requests, sent, shown, tour_after, finish_setup}

abbrev pub is_completes : OnboardingStatus × Request → Bool
is_completes (r, completes) = true
is_completes (r, q) = false

-- The server has completed the setup.
abbrev pub is_completed : OnboardingStatus × Event → Bool
is_completed (r, answered completing ok) = ok
is_completed (r, e) = false

abbrev is_finishing : Screen → Bool
is_finishing (at_done t) = is_pending t
is_finishing s = false

mount-is_finishing : (r : OnboardingStatus) (k : StepKey) → is_finishing (mount r k) ≡ false
mount-is_finishing r k = ground arith

set_step-is_finishing :
    (r : OnboardingStatus) (k : StepKey) (s : Screen)
    → is_finishing s ≡ false
    → is_finishing (set_step r k s) ≡ false
unfolding set_step
set_step-is_finishing r k s h = elim (Bool-cases (index_of k == index_of (key_of s))) [
  | inl e ↦ simp e h
  | inr e ↦ simp e (mount-is_finishing r k)
]

moved-is_finishing :
    (r : OnboardingStatus) (e : Event) (s : Screen)
    → is_finishing s ≡ false
    → is_finishing (moved r e s) ≡ false
unfolding moved
moved-is_finishing r (stepped_to k) s h =
    elim (Bool-cases (ltb (index_of k) (index_of (key_of s)))) [
      | inl e ↦ simp e (set_step-is_finishing r k s h)
      | inr e ↦ simp e h
    ]
moved-is_finishing r next_pressed s h = elim (Bool-cases (is_done (key_of s))) [
  | inl e ↦ simp e h
  | inr e ↦ simp e (set_step-is_finishing r (next_key (key_of s)) s h)
]
moved-is_finishing r back_pressed s h = elim (Bool-cases (index_of (key_of s) == 0)) [
  | inl e ↦ simp e h
  | inr e ↦ simp e (set_step-is_finishing r (back_key (key_of s)) s h)
]
moved-is_finishing r texts_read at_company h = elim (Bool-cases (has_texts r)) [
  | inl e ↦ simp e (set_step-is_finishing r legal at_company refl)
  | inr e ↦ simp e refl
]
moved-is_finishing r e s h = h

typed-is_finishing :
    (r : OnboardingStatus) (e : Event) (s : Screen) → is_finishing (typed r e s) ≡ is_finishing s
typed-is_finishing r e s = ground arith

abbrev asks : List Request → Bool
asks [] = false
asks (completes ∷ qs) = true
asks (q ∷ qs) = asks qs

marked-none : (s : Screen) → is_finishing s ≡ false → is_finishing (marked [] s) ≡ false
unfolding marked
marked-none s h = ground arith

marked-elsewhere :
    (qs : List Request) (s : Screen)
    → is_done (key_of s) ≡ false
    → is_finishing (marked qs s) ≡ false
unfolding marked
marked-elsewhere qs s h = ground arith

finish_setup-asks :
    (r : OnboardingStatus) (t : MutationStatus)
    → asks (finish_setup r t) ≡ false
    → finish_setup r t ≡ []
unfolding finish_setup
finish_setup-asks r t h = ground arith

settled-is_finishing :
    (run : Run) (ok : Bool) (s : Screen)
    → is_finishing s ≡ false
    → is_finishing (settled run ok s) ≡ false
unfolding settled
settled-is_finishing run ok s h = ground arith

idle-tour_requested :
    (run : Run) (ok : Bool) (s : Screen) → is_finishing s ≡ false → tour_requested run ok s ≡ false
idle-tour_requested run ok s h = ground arith

refused-tour_requested :
    (r : OnboardingStatus) (run : Run) (ok : Bool) (s : Screen)
    → is_completed (r, answered run ok) ≡ false
    → tour_requested run ok s ≡ false
refused-tour_requested r run ok s h = ground arith

neither : (a b : Bool) → (a || b) ≡ false → (a ≡ false) × (b ≡ false)
neither a b h = ground arith

asked_only : (a b : Bool) → b ≡ true → (a && b) ≡ false → a ≡ false
asked_only a b e h = ground arith

asks-split :
    (r : OnboardingStatus) (qs : List Request) (later : List (OnboardingStatus × Request))
    → any is_completes (map (λ q. (r, q)) qs ++ later) ≡ false
    → (asks qs ≡ false) × (any is_completes later ≡ false)
asks-split r [] later h = (refl, h)
asks-split r (completes ∷ qs) later h = cc
asks-split r (q ∷ qs) later h = asks-split r qs later h

-- An event that asks nothing of the server, or not on the last step.
module _ (trim : String → String) where
  sent-done :
      (r : OnboardingStatus) (e : Event) (t : MutationStatus)
      → asks (sent trim r e (at_done t)) ≡ false
      → sent trim r e (at_done t) ≡ []
  unfolding sent
  sent-done r finish_pressed t h = finish_setup-asks r t h
  sent-done r e t h = refl

  asked-is_finishing :
      (r : OnboardingStatus) (e : Event) (s : Screen)
      → is_finishing s ≡ false
      → asks (sent trim r e s) ≡ false
      → is_finishing (marked (sent trim r e s) (typed r e s)) ≡ false
  asked-is_finishing r e (at_done t) h k = rw (sent-done r e t k) (marked-none (at_done t) h)
  asked-is_finishing r e at_language h k = marked-elsewhere _ _ refl
  asked-is_finishing r e at_company h k = marked-elsewhere _ _ refl
  asked-is_finishing r e (at_profile f) h k = marked-elsewhere _ (typed r e (at_profile f)) refl
  asked-is_finishing r e (at_legal t) h k = marked-elsewhere _ (typed r e (at_legal t)) refl
  asked-is_finishing r e (at_seed f) h k = marked-elsewhere _ (typed r e (at_seed f)) refl

  -- An event asks the server, or moves, but not both.
  sent-moved :
      (r : OnboardingStatus) (e : Event) (s : Screen) → (sent trim r e s ≡ []) ⊎ (moved r e s ≡ s)
  unfolding sent moved
  sent-moved r (stepped_to k) s = inl refl
  sent-moved r next_pressed s = inl refl
  sent-moved r back_pressed s = inl refl
  sent-moved r texts_read s = inl refl
  sent-moved r e s = inr refl

  marked-is_finishing :
      (r : OnboardingStatus) (e : Event) (s : Screen)
      → is_finishing s ≡ false
      → asks (sent trim r e s) ≡ false
      → is_finishing (marked (sent trim r e s) (typed r e (moved r e s))) ≡ false
  marked-is_finishing r e s h k = elim (sent-moved r e s) [
    | inl none_sent ↦ rw none_sent (
        marked-none (typed r e (moved r e s))
          (typed-is_finishing r e (moved r e s) ∙ moved-is_finishing r e s h))
    | inr stays ↦ rw stays (asked-is_finishing r e s h k)
  ]

  shown-is_finishing :
      (r : OnboardingStatus) (e : Event) (s : Screen)
      → is_finishing s ≡ false
      → asks (sent trim r e s) ≡ false
      → is_finishing (shown trim r e s) ≡ false
  shown-is_finishing r (answered run ok) s h k = settled-is_finishing run ok s h
  shown-is_finishing r e s h k = marked-is_finishing r e s h k

  tour_after-idle :
      (e : Event) (w : Wizard) → is_finishing w.screen ≡ false → tour_after trim e w ≡ w.tour
  unfolding tour_after
  tour_after-idle (answered run ok) w h = simp (idle-tour_requested run ok w.screen h) refl
  tour_after-idle e w h = refl

  tour_after-refused :
      (r : OnboardingStatus) (e : Event) (w : Wizard)
      → is_completed (r, e) ≡ false
      → tour_after trim e w ≡ w.tour
  unfolding tour_after
  tour_after-refused r (answered run ok) w h =
      simp (refused-tour_requested r run ok w.screen h) refl
  tour_after-refused r e w h = refl

  unasked-tour :
      (events : List (OnboardingStatus × Event)) (w : Wizard)
      → is_finishing w.screen ≡ false
      → any is_completes (requests trim events w) ≡ false
      → (run trim events w).tour ≡ w.tour
  unfolding run requests step
  unasked-tour [] w h k = refl
  unasked-tour ((r, e) ∷ events) w h k =
      let (now, later) = asks-split r (sent trim r e w.screen) _ k in
      unasked-tour events (step trim r e w) (shown-is_finishing r e w.screen h now) later
      ∙ tour_after-idle e w h

  refused-tour :
      (events : List (OnboardingStatus × Event)) (w : Wizard)
      → any is_completed events ≡ false
      → (run trim events w).tour ≡ w.tour
  unfolding run step
  refused-tour [] w h = refl
  refused-tour ((r, e) ∷ events) w h =
      let (now, later) = neither (is_completed (r, e)) (any is_completed events) h in
      refused-tour events (step trim r e w) later ∙ tour_after-refused r e w now

  -- Over any run from the first step, with whatever the server says between two events, the tour's
  -- item is as it was, unless the wizard has asked the server to finish the setup and the server has
  -- done so.
  pub run-tour :
      (events : List (OnboardingStatus × Event)) (tour : Tour)
      → (any is_completes (requests trim events (record { screen = at_language; tour = tour }))
          && any is_completed events)
        ≡ false
      → (run trim events (record { screen = at_language; tour = tour })).tour ≡ tour
  run-tour events tour h = elim (Bool-cases (any is_completed events)) [
    | inl e ↦
        unasked-tour events (record { screen = at_language; tour = tour }) refl
          (asked_only _ (any is_completed events) e h)
    | inr e ↦ refused-tour events (record { screen = at_language; tour = tour }) e
  ]
