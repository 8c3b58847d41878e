-- ===== src/Onboarding/Allowed.antt =====
-- When frontend-react/src/panels/OnboardingWizard.tsx asks for what.
use mathlib.Core.Option.{some-injective}
use mathlib.Core.Path.{subst}
use text.Mathlib.TextPositions.{eq_refl}
use billgen.Prelude.{
  String, Bool, true, false, not, ◌&&◌, ◌||◌, List, [], ◌∷◌, ◌++◌, Option, none, some, ◌===◌, ◌≡◌,
  refl, if◌then◌else◌, ◌==◌, find, map, any, All, Bool-cases, inl, inr, arith,
}
use billgen.Queries.Status.{MutationStatus, is_pending}
use billgen.Onboarding.{
  LegalText, OnboardingStatus, ProfileForm, SeedForm, Screen, at_profile, at_legal, at_done,
  at_seed, Wizard, Request, names, renames, accepts, creates_client, creates_product, completes,
}
use billgen.Onboarding.Steps.{
  Event, profile_submitted, client_submitted, service_submitted, finish_pressed, accept_pressed,
  client_form_shown, product_form_shown, company_of, has_company,
}
use billgen.Onboarding.Requests.{
  is_open_text, accepting, is_blank, profile_disabled, submit_profile, submit_client,
  submit_service, accept_text, finish_setup, sent, step, requests,
}

module _ {ℓ} {A : Type ℓ} where
  -- A list that stands only where a test fails.
  All-unless :
      (P : A → Type 0) (b : Bool) (l : List A) → (b ≡ false → All P l) → All P (if b then [] else l)
  All-unless P true l h = tt
  All-unless P false l h = h refl

  All-append : (P : A → Type 0) (xs ys : List A) → All P xs → All P ys → All P (xs ++ ys)
  All-append P [] ys h k = k
  All-append P (x ∷ xs) ys (p, h) k = (p, All-append P xs ys h k)

-- What the server has said wherever the wizard asks for this.
abbrev pub IsAllowed : OnboardingStatus → Request → Type 0
IsAllowed r (names name) = (name === "") ≡ false
IsAllowed r (renames name) = (name === "") ≡ false
IsAllowed r (accepts key) = any (is_open_text key) r.required_texts ≡ true
IsAllowed r (creates_client b) =
    (company_of r.company_id ≡ some b.company_id)
    × ((r.clients == 0) ≡ true)
    × ((b.name === "") ≡ false)
IsAllowed r (creates_product b) =
    (company_of r.company_id ≡ some b.company_id)
    × ((r.products == 0) ≡ true)
    × ((b.name === "") ≡ false)
    × ((b.unit_price === "") ≡ false)
IsAllowed r completes = (r.can_complete ≡ true) × (r.is_completed ≡ false)

or_last : (a : Bool) → (a || true) ≡ true
or_last a = ground arith

own_open :
    (key : String) (text : LegalText)
    → is_open_text key text ≡ true
    → is_open_text text.key text ≡ true
own_open key text h = ground (arith, eq_refl text.key)

-- What is found by a key is there under its own key.
find_open :
    (key : String) (text : LegalText) (texts : List LegalText)
    → find (is_open_text key) texts ≡ some text
    → any (is_open_text text.key) texts ≡ true
find_open key text [] e = cc
find_open key text (x ∷ xs) e = elim (Bool-cases (is_open_text key x)) [
  | inl k ↦
      let same : x ≡ text = some-injective _ _ (simp k at e) in
      subst (λ (y : LegalText). any (is_open_text y.key) (x ∷ xs) ≡ true) same
        (simp (own_open key x k))
  | inr k ↦ simp (find_open key text xs (simp k at e)) (or_last (is_open_text text.key x))
]

finish_allowed : (a b c : Bool) → (a || not b || c) ≡ false → (b ≡ true) × (a ≡ false)
finish_allowed a b c h = ground arith

profile_allowed : (a b c d : Bool) → (a || b || c || d) ≡ false → (c ≡ false) × (d ≡ false)
profile_allowed a b c d h = ground arith

client_allowed : (a b c d : Bool) → (not (a && b) || c || d) ≡ false → (b ≡ true) × (d ≡ false)
client_allowed a b c d h = ground arith

product_allowed :
    (a b c d e : Bool)
    → (not (a && b) || c || d || e) ≡ false
    → (b ≡ true) × (d ≡ false) × (e ≡ false)
product_allowed a b c d e h = ground arith

module _ (r : OnboardingStatus) where
  finish_setup-AreAllowed : (t : MutationStatus) → All (IsAllowed r) (finish_setup r t)
  unfolding finish_setup
  finish_setup-AreAllowed t =
      All-unless (IsAllowed r) (r.is_completed || not r.can_complete || is_pending t)
        (completes ∷ []) (λ h. (finish_allowed r.is_completed r.can_complete (is_pending t) h, tt))

  accepting-AreAllowed :
      (key : String) (o : Option LegalText)
      → find (is_open_text key) r.required_texts ≡ o
      → All (IsAllowed r) (accepting o)
  accepting-AreAllowed key none e = tt
  accepting-AreAllowed key (some text) e = (find_open key text r.required_texts e, tt)

  accept_text-AreAllowed :
      (key : String) (t : MutationStatus) → All (IsAllowed r) (accept_text r key t)
  unfolding accept_text
  accept_text-AreAllowed key t =
      All-unless (IsAllowed r) (is_pending t) (accepting (find (is_open_text key) r.required_texts))
        (λ h. accepting-AreAllowed key (find (is_open_text key) r.required_texts) refl)

module _ (trim : String → String) (r : OnboardingStatus) where
  submit_profile-AreAllowed : (f : ProfileForm) → All (IsAllowed r) (submit_profile trim f)
  unfolding submit_profile profile_disabled
  submit_profile-AreAllowed f =
      All-unless (IsAllowed r)
        (is_pending f.update_me
          || is_pending f.rename
          || is_blank trim f.name
          || is_blank trim f.org_name)
        (names (trim f.name) ∷ renames (trim f.org_name) ∷ [])
        (λ h.
          let (n, o) =
            profile_allowed (is_pending f.update_me) (is_pending f.rename) (is_blank trim f.name)
              (is_blank trim f.org_name) h in
          (n, (o, tt)))

  submit_client-AreAllowed :
      (f : SeedForm) (o : Option String)
      → company_of r.company_id ≡ o
      → All (IsAllowed r) (submit_client trim r f o)
  unfolding submit_client
  submit_client-AreAllowed f none e = tt
  submit_client-AreAllowed f (some id) e =
      All-unless (IsAllowed r)
        (not (client_form_shown r) || is_pending f.create_client || is_blank trim f.client_name) _
        (λ h.
          let (z, n) =
            client_allowed (has_company r) (r.clients == 0) (is_pending f.create_client)
              (is_blank trim f.client_name) h in
          ((e, z, n), tt))

  submit_service-AreAllowed :
      (f : SeedForm) (o : Option String)
      → company_of r.company_id ≡ o
      → All (IsAllowed r) (submit_service trim r f o)
  unfolding submit_service
  submit_service-AreAllowed f none e = tt
  submit_service-AreAllowed f (some id) e =
      All-unless (IsAllowed r)
        (not (product_form_shown r)
          || is_pending f.create_product
          || is_blank trim f.service_name
          || is_blank trim f.service_price)
        _
        (λ h.
          let (z, n, p) =
            product_allowed (has_company r) (r.products == 0) (is_pending f.create_product)
              (is_blank trim f.service_name) (is_blank trim f.service_price) h in
          ((e, z, n, p), tt))

  sent-AreAllowed : (e : Event) (s : Screen) → All (IsAllowed r) (sent trim r e s)
  unfolding sent
  sent-AreAllowed profile_submitted (at_profile f) = submit_profile-AreAllowed f
  sent-AreAllowed client_submitted (at_seed f) =
      submit_client-AreAllowed f (company_of r.company_id) refl
  sent-AreAllowed service_submitted (at_seed f) =
      submit_service-AreAllowed f (company_of r.company_id) refl
  sent-AreAllowed (accept_pressed key) (at_legal t) = accept_text-AreAllowed r key t
  sent-AreAllowed finish_pressed (at_done t) = finish_setup-AreAllowed r t
  sent-AreAllowed e s = tt

-- What `IsAllowed` says of a request and what had been said before it.
abbrev pub FitsAnswer : OnboardingStatus × Request → Type 0
FitsAnswer (r, q) = IsAllowed r q

All-paired :
    (r : OnboardingStatus) (qs : List Request)
    → All (IsAllowed r) qs
    → All FitsAnswer (map (λ q. (r, q)) qs)
All-paired r [] h = tt
All-paired r (q ∷ qs) (p, h) = (p, All-paired r qs h)

-- However the wizard is used, and whatever the server says meanwhile, each request fits what it had
-- said before: it is asked to finish only where it has said that the setup can be and is not yet, to
-- accept only a text that it requires and has not as accepted, and for a first client or service only
-- of the company that there is and while it has none; and no name and no price that is sent is blank.
pub requests-AreAllowed :
    (trim : String → String) (events : List (OnboardingStatus × Event)) (w : Wizard)
    → All FitsAnswer (requests trim events w)
unfolding requests
requests-AreAllowed trim [] w = tt
requests-AreAllowed trim ((r, e) ∷ events) w =
    All-append FitsAnswer (map (λ q. (r, q)) (sent trim r e w.screen))
      (requests trim events (step trim r e w))
      (All-paired r (sent trim r e w.screen) (sent-AreAllowed trim r e w.screen))
      (requests-AreAllowed trim events (step trim r e w))
