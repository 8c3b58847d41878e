-- ===== src/Onboarding/Steps.antt =====
-- The handlers of frontend-react/src/panels/OnboardingWizard.tsx. The server's answer may change between
-- two events; `trim` is the platform's.
use billgen.Prelude.{
  ◌+◌, ◌-◌, String, Bool, true, false, ◌&&◌, List, [], ◌∷◌, Option, none, some, ◌===◌,
  if◌then◌else◌, ltb, ◌==◌, min,
}
use billgen.Queries.Status.{MutationStatus, pending, is_pending, settle}
use billgen.Onboarding.{
  StepKey, legal, done, index_of, step_at, OnboardingStatus, ProfileForm, SeedForm, Screen,
  at_company, at_profile, at_legal, at_done, at_seed, key_of, mount, Request, creates_client,
  creates_product,
}

-- The mutations whose answers a step waits for.
pub data Run : Type 0 where
  updating renaming accepting creating_client creating_product completing : Run

pub data Event : Type 0 where
  stepped_to : StepKey → Event
  next_pressed back_pressed texts_read : Event
  name_typed org_typed : String → Event
  client_name_typed client_email_typed client_vat_typed : String → Event
  service_name_typed service_price_typed : String → Event
  profile_submitted client_submitted service_submitted finish_pressed : Event
  accept_pressed : String → Event
  answered : Run → Bool → Event

-- `setStep`: the step that is shown already keeps its state.
unfoldable pub set_step : OnboardingStatus → StepKey → Screen → Screen
set_step r k s = if index_of k == index_of (key_of s) then s else mount r k

abbrev pub next_key : StepKey → StepKey
next_key k = step_at (min (index_of k + 1) 5)

abbrev pub back_key : StepKey → StepKey
back_key k = step_at (index_of k - 1)

abbrev pub is_done : StepKey → Bool
is_done done = true
is_done _ = false

abbrev pub has_texts : OnboardingStatus → Bool
has_texts r = elim r.required_texts [ [] ↦ false | x ∷ xs ↦ true ]

-- The moves between the steps; the stepper's steps can be clicked once they are passed.
unfoldable pub moved : OnboardingStatus → Event → Screen → Screen
unfolding set_step
moved r (stepped_to k) s = if ltb (index_of k) (index_of (key_of s)) then set_step r k s else s
moved r next_pressed s = if is_done (key_of s) then s else set_step r (next_key (key_of s)) s
moved r back_pressed s = if index_of (key_of s) == 0 then s else set_step r (back_key (key_of s)) s
moved r texts_read at_company = if has_texts r then set_step r legal at_company else at_company
moved r _ s = s

abbrev pub typed_profile : Event → ProfileForm → ProfileForm
typed_profile (name_typed v) f = record f { name = v }
typed_profile (org_typed v) f = record f { org_name = v }
typed_profile _ f = f

-- An id that is empty is falsy.
abbrev pub company_of : Option String → Option String
company_of none = none
company_of (some id) = if id === "" then none else some id

abbrev pub has_company : OnboardingStatus → Bool
has_company r = elim (company_of r.company_id) [ none ↦ false | some id ↦ true ]

abbrev pub client_form_shown : OnboardingStatus → Bool
client_form_shown r = has_company r && r.clients == 0

abbrev pub product_form_shown : OnboardingStatus → Bool
product_form_shown r = has_company r && r.products == 0

-- A form that the step does not show is not typed into.
abbrev pub typed_seed : OnboardingStatus → Event → SeedForm → SeedForm
typed_seed r (client_name_typed v) f =
    if client_form_shown r then record f { client_name = v } else f
typed_seed r (client_email_typed v) f =
    if client_form_shown r then record f { client_email = v } else f
typed_seed r (client_vat_typed v) f = if client_form_shown r then record f { client_vat = v } else f
typed_seed r (service_name_typed v) f =
    if product_form_shown r then record f { service_name = v } else f
typed_seed r (service_price_typed v) f =
    if product_form_shown r then record f { service_price = v } else f
typed_seed r _ f = f

abbrev pub typed : OnboardingStatus → Event → Screen → Screen
typed r e (at_profile f) = at_profile (typed_profile e f)
typed r e (at_seed f) = at_seed (typed_seed r e f)
typed r e s = s

abbrev pub marked_profile : List Request → ProfileForm → ProfileForm
marked_profile [] f = f
marked_profile (q ∷ qs) f = record f { update_me = pending; rename = pending }

abbrev pub marked_seed : List Request → SeedForm → SeedForm
marked_seed (creates_client b ∷ qs) f = record f { create_client = pending }
marked_seed (creates_product b ∷ qs) f = record f { create_product = pending }
marked_seed _ f = f

abbrev pub marked_one : List Request → MutationStatus → MutationStatus
marked_one [] t = t
marked_one (q ∷ qs) t = pending

-- The requests of an event run.
unfoldable pub marked : List Request → Screen → Screen
marked qs (at_profile f) = at_profile (marked_profile qs f)
marked qs (at_legal t) = at_legal (marked_one qs t)
marked qs (at_seed f) = at_seed (marked_seed qs f)
marked qs (at_done t) = at_done (marked_one qs t)
marked qs s = s

-- An answer reaches the step that asked, while it is shown.
unfoldable pub settled : Run → Bool → Screen → Screen
settled updating ok (at_profile f) = at_profile (record f { update_me = settle ok f.update_me })
settled renaming ok (at_profile f) = at_profile (record f { rename = settle ok f.rename })
settled accepting ok (at_legal t) = at_legal (settle ok t)
settled creating_client ok (at_seed f) =
    at_seed (record f { create_client = settle ok f.create_client })
settled creating_product ok (at_seed f) =
    at_seed (record f { create_product = settle ok f.create_product })
settled completing ok (at_done t) = at_done (settle ok t)
settled run ok s = s

-- `requestTour`, where the run succeeds while its step is shown.
abbrev pub tour_requested : Run → Bool → Screen → Bool
tour_requested completing ok (at_done t) = ok && is_pending t
tour_requested _ ok s = false
