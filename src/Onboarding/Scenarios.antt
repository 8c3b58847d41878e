-- ===== src/Onboarding/Scenarios.antt =====
-- The theorems on the first run, on an organisation whose company is there already.
use billgen.Prelude.{
  arith, String, true, false, List, [], ◌∷◌, none, some, ◌≡◌, refl, any, All, length,
}
use billgen.Onboarding.{OnboardingStatus, at_language, Wizard, Tour, company}
use billgen.Onboarding.Steps.{
  Event, next_pressed, client_name_typed, client_submitted, finish_pressed, accept_pressed,
  answered, completing, moved, marked, settled, set_step,
}
use billgen.Onboarding.Requests.{
  step, run, requests, sent, submit_client, finish_setup, accept_text,
}
use billgen.Onboarding.Allowed.{FitsAnswer, requests-AreAllowed}
use billgen.Onboarding.Moves.{same_step, visited, visited-through}
use billgen.Onboarding.Touring.{run-tour}
use billgen.Onboarding.Blockers.{Labels}

abbrev keep : String → String
keep s = s

abbrev ready : OnboardingStatus
ready = record {
  display_name = some "Ada";
  organization_name = some "Engines";
  company_id = some "c";
  required_texts = record { key = "dpa"; title = "DPA"; version = "1"; accepted = false } ∷ [];
  clients = 0;
  products = 1;
  is_completed = false;
  can_complete = true;
}

abbrev unused : Tour
unused = record { item = none; is_unreadable = false; is_unwritable = false }

abbrev first_step : Wizard
first_step = record { screen = at_language; tour = unused }

abbrev walk : List (OnboardingStatus × Event)
walk =
    (ready, next_pressed)
    ∷ (ready, next_pressed)
    ∷ (ready, next_pressed)
    ∷ (ready, accept_pressed "dpa")
    ∷ (ready, next_pressed)
    ∷ (ready, client_name_typed "Bob")
    ∷ (ready, client_submitted)
    ∷ (ready, client_submitted)
    ∷ (ready, next_pressed)
    ∷ (ready, finish_pressed)
    ∷ []

-- A text, one client although its form is submitted twice, and the end.
walk_test : length (requests keep walk first_step) ≡ 3
unfolding requests step sent moved marked settled set_step accept_text submit_client finish_setup
walk_test = refl

requests-AreAllowed_example : All FitsAnswer (requests keep walk first_step)
requests-AreAllowed_example = requests-AreAllowed keep walk first_step

abbrev three_steps : List (OnboardingStatus × Event)
three_steps = (ready, next_pressed) ∷ (ready, next_pressed) ∷ []

visited-through_example : any (same_step company) (visited keep three_steps first_step) ≡ true
unfolding run step moved marked settled set_step sent
visited-through_example = visited-through keep three_steps unused company (omega arith)

-- The server refuses to finish the setup.
abbrev refused_walk : List (OnboardingStatus × Event)
refused_walk =
    (ready, next_pressed) ∷ (ready, finish_pressed) ∷ (ready, answered completing false) ∷ []

run-tour_example : (run keep refused_walk first_step).tour ≡ unused
unfolding requests step sent moved marked settled set_step finish_setup
run-tour_example = run-tour keep refused_walk unused refl

abbrev labels : Labels
labels = record {
  profile = "your name";
  no_company = "a company";
  company = "company identifiers";
  accept = "acceptance of";
}
