-- ===== src/Onboarding/Requests.antt =====
-- The requests of frontend-react/src/panels/OnboardingWizard.tsx, and its runs.
use billgen.Prelude.{
  String, Bool, not, ◌&&◌, ◌||◌, List, [], ◌∷◌, ◌++◌, Option, none, some, ◌===◌, if◌then◌else◌,
  find, map,
}
use billgen.Queries.Status.{MutationStatus, is_pending}
use billgen.Onboarding.{
  LegalText, OnboardingStatus, ProfileForm, SeedForm, Screen, at_profile, at_legal, at_done,
  at_seed, Wizard, Tour, request_tour, Request, names, renames, accepts, creates_client,
  creates_product, completes,
}
use billgen.Onboarding.Steps.{
  Event, profile_submitted, client_submitted, service_submitted, finish_pressed, accept_pressed,
  answered, moved, typed, marked, settled, tour_requested, client_form_shown, product_form_shown,
  company_of,
}

-- A text that the server has, and that is not accepted, has a button.
abbrev pub is_open_text : String → LegalText → Bool
is_open_text key text = text.key === key && not text.accepted

abbrev pub accepting : Option LegalText → List Request
accepting none = []
accepting (some text) = accepts text.key ∷ []

unfoldable pub accept_text : OnboardingStatus → String → MutationStatus → List Request
accept_text r key t =
    if is_pending t then [] else accepting (find (is_open_text key) r.required_texts)

unfoldable pub finish_setup : OnboardingStatus → MutationStatus → List Request
finish_setup r t =
    if r.is_completed || not r.can_complete || is_pending t then [] else completes ∷ []

module _ (trim : String → String) where
  abbrev pub is_blank : String → Bool
  is_blank s = trim s === ""

  -- `value.trim() || null`
  abbrev pub trimmed : String → Option String
  trimmed s = if is_blank s then none else some (trim s)

  unfoldable pub profile_disabled : ProfileForm → Bool
  profile_disabled f =
      is_pending f.update_me || is_pending f.rename || is_blank f.name || is_blank f.org_name

  unfoldable pub submit_profile : ProfileForm → List Request
  unfolding profile_disabled
  submit_profile f =
      if profile_disabled f then [] else names (trim f.name) ∷ renames (trim f.org_name) ∷ []

  -- The first client, and the first service, of the company that there is.
  unfoldable pub submit_client : OnboardingStatus → SeedForm → Option String → List Request
  submit_client r f none = []
  submit_client r f (some company_id) =
      if not (client_form_shown r) || is_pending f.create_client || is_blank f.client_name
      then []
      else creates_client (record {
        company_id = company_id;
        name = trim f.client_name;
        email = trimmed f.client_email;
        vat_number = trimmed f.client_vat;
        is_business = not (is_blank f.client_vat);
      })
        ∷ []

  unfoldable pub submit_service : OnboardingStatus → SeedForm → Option String → List Request
  submit_service r f none = []
  submit_service r f (some company_id) =
      if not (product_form_shown r)
        || is_pending f.create_product
        || is_blank f.service_name
        || is_blank f.service_price
      then []
      else creates_product (record {
        company_id = company_id;
        name = trim f.service_name;
        unit_price = trim f.service_price;
      })
        ∷ []

  -- The requests that an event makes.
  unfoldable pub sent : OnboardingStatus → Event → Screen → List Request
  unfolding submit_profile submit_client submit_service accept_text finish_setup
  sent r profile_submitted (at_profile f) = submit_profile f
  sent r client_submitted (at_seed f) = submit_client r f (company_of r.company_id)
  sent r service_submitted (at_seed f) = submit_service r f (company_of r.company_id)
  sent r (accept_pressed key) (at_legal t) = accept_text r key t
  sent r finish_pressed (at_done t) = finish_setup r t
  sent r _ s = []

  unfoldable pub tour_after : Event → Wizard → Tour
  unfolding request_tour
  tour_after (answered run ok) w =
      if tour_requested run ok w.screen then request_tour w.tour else w.tour
  tour_after _ w = w.tour

  abbrev pub shown : OnboardingStatus → Event → Screen → Screen
  shown r (answered run ok) s = settled run ok s
  shown r e s = marked (sent r e s) (typed r e (moved r e s))

  unfoldable pub step : OnboardingStatus → Event → Wizard → Wizard
  unfolding sent moved marked settled tour_after
  step r e w = record { screen = shown r e w.screen; tour = tour_after e w }

  unfoldable pub run : List (OnboardingStatus × Event) → Wizard → Wizard
  unfolding step
  run [] w = w
  run ((r, e) ∷ later) w = run later (step r e w)

  -- The requests of a run, each with what the server had said before it.
  unfoldable pub requests :
      List (OnboardingStatus × Event) → Wizard → List (OnboardingStatus × Request)
  unfolding step sent
  requests [] w = []
  requests ((r, e) ∷ later) w = map (λ q. (r, q)) (sent r e w.screen) ++ requests later (step r e w)
