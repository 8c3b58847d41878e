-- ===== src/Onboarding/Moves.antt =====
-- The steps of frontend-react/src/panels/OnboardingWizard.tsx, and the tour that follows them.
use billgen.Prelude.{
  ◌+◌, String, Bool, true, false, List, [], ◌∷◌, ◌≡◌, refl, sym, ltb, ◌==◌, any, Bool-cases, inl,
  inr, arith, ◌≤◌,
}
use billgen.Onboarding.{
  StepKey, language, profile, company, legal, seed, done, index_of, OnboardingStatus, Screen,
  at_language, at_company, key_of, mount, Wizard, Tour, Request,
}
use billgen.Onboarding.Steps.{
  Event, stepped_to, next_pressed, back_pressed, answered, Run, set_step, moved, next_key, back_key,
  marked, settled, typed, texts_read, is_done, has_texts,
}
use billgen.Onboarding.Requests.{step, run, sent, shown}

key_of-mount : (r : OnboardingStatus) (k : StepKey) → key_of (mount r k) ≡ k
key_of-mount r language = refl
key_of-mount r profile = refl
key_of-mount r company = refl
key_of-mount r legal = refl
key_of-mount r seed = refl
key_of-mount r done = refl

index_of-same : (j k : StepKey) → (index_of j == index_of k) ≡ true → j ≡ k
index_of-same j k h = ground arith

key_of-set_step : (r : OnboardingStatus) (k : StepKey) (s : Screen) → key_of (set_step r k s) ≡ k
unfolding set_step
key_of-set_step r k s = elim (Bool-cases (index_of k == index_of (key_of s))) [
  | inl e ↦ simp e (sym (index_of-same k (key_of s) e))
  | inr e ↦ simp e (key_of-mount r k)
]

abbrev pub same_step : StepKey → StepKey → Bool
same_step j k = index_of j == index_of k

-- The steps that a run shows.
unfoldable pub visited : (String → String) → List (OnboardingStatus × Event) → Wizard → List StepKey
visited trim [] w = key_of w.screen ∷ []
visited trim ((r, e) ∷ events) w = key_of w.screen ∷ visited trim events (step trim r e w)

next_index : (k : StepKey) → index_of (next_key k) ≤ index_of k + 1
next_index language = omega arith
next_index profile = omega arith
next_index company = omega arith
next_index legal = omega arith
next_index seed = omega arith
next_index done = omega arith

back_index : (k : StepKey) → index_of (back_key k) ≤ index_of k + 1
back_index language = omega arith
back_index profile = omega arith
back_index company = omega arith
back_index legal = omega arith
back_index seed = omega arith
back_index done = omega arith

moved-index :
    (r : OnboardingStatus) (e : Event) (s : Screen)
    → index_of (key_of (moved r e s)) ≤ index_of (key_of s) + 1
unfolding moved
moved-index r (stepped_to k) s = elim (Bool-cases (ltb (index_of k) (index_of (key_of s)))) [
  | inl e ↦ simp (e, key_of-set_step r k s) (ground (arith, e))
  | inr e ↦ simp e (omega arith)
]
moved-index r next_pressed s = elim (Bool-cases (is_done (key_of s))) [
  | inl e ↦ simp e (omega arith)
  | inr e ↦ simp (e, key_of-set_step r (next_key (key_of s)) s) (next_index (key_of s))
]
moved-index r back_pressed s = elim (Bool-cases (index_of (key_of s) == 0)) [
  | inl e ↦ simp e (omega arith)
  | inr e ↦ simp (e, key_of-set_step r (back_key (key_of s)) s) (back_index (key_of s))
]
moved-index r texts_read at_company = elim (Bool-cases (has_texts r)) [
  | inl e ↦ simp e (omega arith)
  | inr e ↦ simp e (omega arith)
]
moved-index r e s = omega arith

key_of-marked : (qs : List Request) (s : Screen) → key_of (marked qs s) ≡ key_of s
unfolding marked
key_of-marked qs s = ground arith

key_of-typed : (r : OnboardingStatus) (e : Event) (s : Screen) → key_of (typed r e s) ≡ key_of s
key_of-typed r e s = ground arith

key_of-settled : (run : Run) (ok : Bool) (s : Screen) → key_of (settled run ok s) ≡ key_of s
unfolding settled
key_of-settled run ok s = ground arith

shown-index :
    (trim : String → String) (r : OnboardingStatus) (e : Event) (s : Screen)
    → index_of (key_of (shown trim r e s)) ≤ index_of (key_of s) + 1
shown-index trim r (answered run ok) s = rw (key_of-settled run ok s) (omega arith)
shown-index trim r e s =
    rw (key_of-marked (sent trim r e s) (typed r e (moved r e s)))
      (rw (key_of-typed r e (moved r e s)) (moved-index r e s))

later_step :
    (j k : StepKey) → same_step j k ≡ false → index_of k ≤ index_of j → index_of k + 1 ≤ index_of j
later_step j k e h = ground arith

visited-reached :
    (trim : String → String) (events : List (OnboardingStatus × Event)) (w : Wizard) (j : StepKey)
    → index_of (key_of w.screen) ≤ index_of j
    → index_of j ≤ index_of (key_of (run trim events w).screen)
    → any (same_step j) (visited trim events w) ≡ true
unfolding visited run step
visited-reached trim [] w j h k = ground arith
visited-reached trim ((r, event) ∷ events) w j h k =
    elim (Bool-cases (same_step j (key_of w.screen))) [
      | inl e ↦ simp e
      | inr e ↦ simp e (
          visited-reached trim events (step trim r event w) j
            (omega (arith, later_step j (key_of w.screen) e h, shown-index trim r event w.screen))
            k)
    ]

-- The wizard skips no step: wherever a run from the first step has come, each step before it has been
-- shown, and so has the step itself.
pub visited-through :
    (trim : String → String) (events : List (OnboardingStatus × Event)) (tour : Tour) (j : StepKey)
    → index_of j
      ≤ index_of (key_of (run trim events (record { screen = at_language; tour = tour })).screen)
    → any (same_step j) (visited trim events (record { screen = at_language; tour = tour })) ≡ true
visited-through trim events tour j h =
    visited-reached trim events (record { screen = at_language; tour = tour }) j (omega arith) h
