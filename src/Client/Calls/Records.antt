-- ===== src/Client/Calls/Records.antt =====
-- The sections on the organization, companies, clients, document templates and products of
-- frontend-react/src/lib/apiClient.ts.
use billgen.Prelude.{ℕ, String, List, Option, none, some, ◌++◌, ◌==◌, if◌then◌else◌}
use billgen.Json.{Json}
use billgen.Client.Request.{Call}
use billgen.Client.Calls.Build.{
  ◌&◌, call, get, post, patch, empty, single, Platform, set_if, query, text_query, splice_if,
}

pub data AccountCall : Type 0 where
  me current_organization : AccountCall
  rename_organization set_desktop_plan_tier : String → AccountCall
  update_me : Json → AccountCall

unfoldable pub account_plan : AccountCall → Call
account_plan me = get "/users/me"
account_plan (rename_organization name) = patch "/orgs/current" (single "name" name)
account_plan current_organization = get "/orgs/current"
account_plan (update_me body) = patch "/users/me" body
account_plan (set_desktop_plan_tier tier) = post "/desktop/plan-tier" (single "plan_tier" tier)

pub data CompanyCall : Type 0 where
  list_companies : CompanyCall
  create_company : Json → CompanyCall
  get_company validate_company : String → CompanyCall
  update_company : String → Json → CompanyCall

unfoldable pub company_plan : CompanyCall → Call
company_plan list_companies = get "/companies"
company_plan (create_company body) = post "/companies" body
company_plan (get_company id) = get ("/companies/" & id)
company_plan (update_company id body) = patch ("/companies/" & id) body
company_plan (validate_company id) = get ("/companies/" & id & "/validation")

pub data ClientCall : Type 0 where
  list_clients : Option String → ClientCall
  get_client export_client_data erase_client_data : String → ClientCall
  create_client accept_legal_text : Json → ClientCall
  update_client : String → Json → ClientCall
  client_stats : String → Option String → ClientCall
  client_timeline : String → Option ℕ → ClientCall
  onboarding_status complete_onboarding : ClientCall

-- `limit ? `?limit=${limit}` : ""`
abbrev limit_query : Platform → Option ℕ → String
limit_query platform none = ""
limit_query platform (some n) = if n == 0 then "" else "?limit=" & platform.decimal n

unfoldable pub client_plan : Platform → ClientCall → Call
client_plan p (list_clients company) = get ("/clients" & splice_if "?company_id=" company)
client_plan p (get_client id) = get ("/clients/" & id)
client_plan p (create_client body) = post "/clients" body
client_plan p (update_client id body) = patch ("/clients/" & id) body
client_plan p (client_stats id today) =
    get ("/clients/" & id & "/stats" & splice_if "?today=" today)
client_plan p onboarding_status = get "/onboarding"
client_plan p (accept_legal_text body) = post "/onboarding/acceptances" body
client_plan p complete_onboarding = call "POST" "/onboarding/complete" none
client_plan p (export_client_data id) = call "POST" ("/clients/" & id & "/privacy/export") none
client_plan p (erase_client_data id) = call "POST" ("/clients/" & id & "/privacy/erase") none
client_plan p (client_timeline id limit) =
    get ("/clients/" & id & "/timeline" & limit_query p limit)

pub data TemplateCall : Type 0 where
  list_templates : Option String → Option String → TemplateCall
  get_template publish_template set_default_template delete_template : String → TemplateCall
  create_template : Json → TemplateCall
  update_template : String → Json → TemplateCall

unfoldable pub template_plan : Platform → TemplateCall → Call
template_plan p (list_templates company doc_type) =
    get ("/templates" & text_query p (set_if "company_id" company ++ set_if "doc_type" doc_type))
template_plan p (get_template id) = get ("/templates/" & id)
template_plan p (create_template body) = post "/templates" body
template_plan p (update_template id body) = patch ("/templates/" & id) body
template_plan p (publish_template id) = post ("/templates/" & id & "/publish") empty
template_plan p (set_default_template id) = post ("/templates/" & id & "/default") empty
template_plan p (delete_template id) = call "DELETE" ("/templates/" & id) none

pub record ProductFilter : Type 0 where
  pub company_id : Option String
  pub status : Option String
  pub billing_type : Option String

-- The argument of `listProducts`, an id or a filter or nothing, as a filter.
pub data ProductsArgument : Type 0 where
  everything : ProductsArgument
  of_company : String → ProductsArgument
  filtered : ProductFilter → ProductsArgument

unfoldable pub product_filter : ProductsArgument → ProductFilter
product_filter everything = record { company_id = none; status = none; billing_type = none }
product_filter (of_company id) = record { company_id = some id; status = none; billing_type = none }
product_filter (filtered f) = f

pub data ProductCall : Type 0 where
  list_products : ProductsArgument → ProductCall
  create_product : Json → ProductCall
  update_product : String → Json → ProductCall

abbrev pub product_params : ProductFilter → List (String × String)
product_params f =
    set_if "company_id" f.company_id
    ++ (set_if "status" f.status ++ set_if "billing_type" f.billing_type)

unfoldable pub product_plan : Platform → ProductCall → Call
product_plan p (list_products arg) =
    get ("/products" & query p (product_params (product_filter arg)))
product_plan p (create_product body) = post "/products" body
product_plan p (update_product id body) = patch ("/products/" & id) body
