-- ===== src/Onboarding.antt =====
-- frontend-react/src/panels/OnboardingWizard.tsx: the steps of the first run, what each keeps, and what
-- the server says of the setup.
pub mod Steps
pub mod Requests
pub mod Allowed
pub mod Moves
pub mod Touring
pub mod Blockers
mod Scenarios
use billgen.Prelude.{
  ℕ, String, Bool, true, false, List, [], ◌∷◌, Option, none, some, get_elem?, ◌-◌, ◌+◌, min,
  if◌then◌else◌, ◌===◌, ◌==◌,
}
use billgen.Json.{text_or_null, Json, text, null, bool, obj, field, end}
use billgen.Queries.Status.{MutationStatus, idle}
use billgen.Queries.Writes.{
  Mutation, use_update_me, use_rename_organization, use_accept_legal_text, use_create_client,
  use_create_product, use_complete_onboarding,
}

pub data StepKey : Type 0 where
  language profile company legal seed done : StepKey

abbrev pub step_keys : List StepKey
step_keys = language ∷ profile ∷ company ∷ legal ∷ seed ∷ done ∷ []

-- `STEP_KEYS.indexOf`
abbrev pub index_of : StepKey → ℕ
index_of language = 0
index_of profile = 1
index_of company = 2
index_of legal = 3
index_of seed = 4
index_of done = 5

-- `STEP_KEYS[i]`, at an index of the list.
abbrev pub step_at : ℕ → StepKey
step_at i = elim (get_elem? step_keys i) [ none ↦ done | some k ↦ k ]

pub record LegalText : Type 0 where
  pub key : String
  pub title : String
  pub version : String
  pub accepted : Bool

-- What is read of the server's answer; `is_completed` is `completed_at !== null`.
pub record OnboardingStatus : Type 0 where
  pub display_name : Option String
  pub organization_name : Option String
  pub company_id : Option String
  pub required_texts : List LegalText
  pub clients : ℕ
  pub products : ℕ
  pub is_completed : Bool
  pub can_complete : Bool

pub record ProfileForm : Type 0 where
  pub name : String
  pub org_name : String
  pub update_me : MutationStatus
  pub rename : MutationStatus

pub record SeedForm : Type 0 where
  pub client_name : String
  pub client_email : String
  pub client_vat : String
  pub service_name : String
  pub service_price : String
  pub create_client : MutationStatus
  pub create_product : MutationStatus

-- The step that is shown, with the state of its component.
pub data Screen : Type 0 where
  at_language at_company : Screen
  at_profile : ProfileForm → Screen
  at_legal at_done : MutationStatus → Screen
  at_seed : SeedForm → Screen

abbrev pub key_of : Screen → StepKey
key_of at_language = language
key_of (at_profile f) = profile
key_of at_company = company
key_of (at_legal accept) = legal
key_of (at_seed f) = seed
key_of (at_done complete) = done

-- `value ?? ""`
abbrev pub or_blank : Option String → String
or_blank none = ""
or_blank (some s) = s

-- A step starts anew whenever it is shown.
abbrev pub mount : OnboardingStatus → StepKey → Screen
mount r language = at_language
mount r profile = at_profile (record {
  name = or_blank r.display_name;
  org_name = or_blank r.organization_name;
  update_me = idle;
  rename = idle;
})
mount r company = at_company
mount r legal = at_legal idle
mount r seed = at_seed (record {
  client_name = "";
  client_email = "";
  client_vat = "";
  service_name = "";
  service_price = "";
  create_client = idle;
  create_product = idle;
})
mount r done = at_done idle

-- The item of frontend-react/src/lib/tour.ts in the browser's storage, which may
-- refuse to be read or to be written.
pub record Tour : Type 0 where
  pub item : Option String
  pub is_unreadable : Bool
  pub is_unwritable : Bool

abbrev pub read_tour : Tour → Option String
read_tour t = if t.is_unreadable then none else t.item

abbrev pub write_tour : String → Tour → Tour
write_tour v t = if t.is_unwritable then t else record t { item = some v }

unfoldable pub tour_pending : Tour → Bool
tour_pending t = elim (read_tour t) [ none ↦ false | some v ↦ v === "pending" ]

unfoldable pub request_tour : Tour → Tour
request_tour t = write_tour "pending" t

unfoldable pub mark_tour_done : Tour → Tour
mark_tour_done t = write_tour "done" t

pub record Wizard : Type 0 where
  pub screen : Screen
  pub tour : Tour

pub record ClientBody : Type 0 where
  pub company_id : String
  pub name : String
  pub email : Option String
  pub vat_number : Option String
  pub is_business : Bool

pub record ProductBody : Type 0 where
  pub company_id : String
  pub name : String
  pub unit_price : String

pub data Request : Type 0 where
  names renames accepts : String → Request
  creates_client : ClientBody → Request
  creates_product : ProductBody → Request
  completes : Request

abbrev pub client_body : ClientBody → Json
client_body b = obj (
    field "company_id" (text b.company_id) (
      field "name" (text b.name) (
        field "email" (text_or_null b.email) (
          field "vat_number" (text_or_null b.vat_number)
            (field "country_code" (text "BE") (field "is_business" (bool b.is_business) end))))))

abbrev pub product_body : ProductBody → Json
product_body b = obj (
    field "company_id" (text b.company_id) (
      field "name" (text b.name)
        (field "unit_price" (text b.unit_price) (field "default_vat_rate" (text "21.0") end))))

-- The run of the query layer's mutation.
abbrev pub mutation_of : Request → Mutation
mutation_of (names name) = use_update_me (obj (field "display_name" (text name) end))
mutation_of (renames name) = use_rename_organization name
mutation_of (accepts key) =
    use_accept_legal_text (obj (field "key" (text key) (field "source" (text "onboarding") end)))
mutation_of (creates_client b) = use_create_client (client_body b)
mutation_of (creates_product b) = use_create_product (product_body b)
mutation_of completes = use_complete_onboarding
