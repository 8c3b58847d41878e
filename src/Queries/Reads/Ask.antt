-- ===== src/Queries/Reads/Ask.antt =====
-- The call that a key asks for, read from the key alone.
use billgen.Prelude.{ℕ, String, [], ◌∷◌, Option, none, some, ◌===◌, ◌==◌, if◌then◌else◌}
use billgen.Client.Calls.Records.{
  me, current_organization, list_companies, get_company, validate_company, list_clients, get_client,
  client_stats, client_timeline, onboarding_status, list_templates, list_products, ProductsArgument,
}
use billgen.Client.Calls.Sales.{
  list_invoices, get_invoice, list_credit_notes, list_payments, of_invoice, filtered,
}
use billgen.Client.Calls.Reports.{
  alerts, kpi, revenue, activity, invoice_report, payment_report, vat_report, search,
  privacy_register, legal_documents, entitlements, plans, vat_rates, pdf_templates, vat_treatment,
}
use billgen.Client.Calls.Backup.{passphrase_notice}
use billgen.Client.Calls.Laws.{Endpoint}
use billgen.Queries.Keys.{Part, Key, word, number}

-- What a part of a key says of the argument that it was made of.
abbrev pub unless : String → Part → Option String
unless fallback (word t) = if t === fallback then none else some t
unless fallback _ = none

abbrev pub unless_number : ℕ → Part → Option ℕ
unless_number fallback (number n) = if n == fallback then none else some n
unless_number fallback _ = none

abbrev pub text_of : Part → String
text_of (word t) = t
text_of _ = "undefined"

abbrev pub number_of : Part → ℕ
number_of (number n) = n
number_of _ = 0

abbrev pub number_or_none : Part → Option ℕ
number_or_none (number n) = some n
number_or_none _ = none

abbrev pub ask_root : String → Option Endpoint
ask_root r =
    if r === "companies"
    then some (Endpoint.company list_companies)
    else if r === "me"
    then some (Endpoint.account me)
    else if r === "organization"
    then some (Endpoint.account current_organization)
    else if r === "onboarding"
    then some (Endpoint.client onboarding_status)
    else if r === "entitlements"
    then some (Endpoint.reference entitlements)
    else if r === "plans"
    then some (Endpoint.reference plans)
    else none

abbrev pub ask_one : String → Part → Option Endpoint
ask_one r p =
    if r === "clients"
    then some (Endpoint.client (list_clients (unless "all" p)))
    else if r === "credit-notes"
    then some (Endpoint.credit_note (list_credit_notes (unless "all" p)))
    else if r === "payments"
    then some (Endpoint.payment (list_payments (of_invoice (text_of p))))
    else if r === "company-validation"
    then some (Endpoint.company (validate_company (text_of p)))
    else if r === "backup"
    then some (Endpoint.backup passphrase_notice)
    else if r === "trust"
    then (if text_of p === "privacy-register"
        then some (Endpoint.reference privacy_register)
        else some (Endpoint.reference legal_documents))
    else if text_of p === "vat-rates"
    then some (Endpoint.reference vat_rates)
    else some (Endpoint.reference pdf_templates)

abbrev pub ask_two : String → Part → Part → Option Endpoint
ask_two r p q =
    if r === "clients"
    then some (Endpoint.client (get_client (text_of q)))
    else if r === "invoices"
    then some (Endpoint.invoice (get_invoice (text_of q)))
    else if r === "companies"
    then some (Endpoint.company (get_company (text_of q)))
    else if r === "templates"
    then some (Endpoint.template (list_templates (unless "all" p) (unless "all" q)))
    else some (Endpoint.report (search (text_of p) (number_or_none q)))

abbrev pub ask_reports : Part → Part → Part → Option Endpoint
ask_reports p q s =
    if text_of p === "kpi"
    then some (Endpoint.report (kpi (text_of q) (unless "now" s)))
    else if text_of p === "revenue"
    then some (Endpoint.report (revenue (text_of q) (number_of s)))
    else some (Endpoint.report (vat_report (text_of q) (text_of s)))

abbrev pub ask_clients : Part → Part → Part → Option Endpoint
ask_clients p q s =
    if text_of p === "stats"
    then some (Endpoint.client (client_stats (text_of q) (unless "today" s)))
    else some (Endpoint.client (client_timeline (text_of q) (unless_number 100 s)))

abbrev pub ask_three : String → Part → Part → Part → Option Endpoint
ask_three r p q s =
    if r === "products"
    then some (
        Endpoint.product (
          list_products (
            ProductsArgument.filtered (record {
              company_id = unless "all" p;
              status = unless "any-status" q;
              billing_type = unless "any-type" s;
            }))))
    else if r === "invoices"
    then some (
        Endpoint.invoice (
          list_invoices (record {
            company_id = unless "all" p;
            status = unless "any" q;
            client_id = unless "any-client" s;
          })))
    else if r === "alerts"
    then some (Endpoint.report (alerts (text_of p) (unless "" q) (unless_number 0 s)))
    else if r === "reports"
    then ask_reports p q s
    else if r === "clients"
    then ask_clients p q s
    else if r === "activity"
    then some (
        Endpoint.report (
          activity (record {
            limit = unless_number 50 p;
            target_type = unless "all" q;
            target_id = unless "all-targets" s;
          })))
    else some (Endpoint.reference (vat_treatment (text_of p) (text_of q) (unless "" s)))

abbrev pub ask : Key → Option Endpoint
ask (word r ∷ []) = ask_root r
ask (word r ∷ p ∷ []) = ask_one r p
ask (word r ∷ p ∷ q ∷ []) = ask_two r p q
ask (word r ∷ p ∷ q ∷ s ∷ []) = ask_three r p q s
ask (word r ∷ p ∷ q ∷ s ∷ t ∷ []) =
    some (Endpoint.report (invoice_report (text_of q) (unless "all" s) (unless "" t)))
ask (word r ∷ p ∷ q ∷ s ∷ t ∷ u ∷ v ∷ []) =
    if r === "payments"
    then some (
        Endpoint.payment (
          list_payments (
            filtered (record {
              invoice_id = unless "all" t;
              company_id = unless "all" q;
              client_id = unless "all" s;
              paid_from = unless "" u;
              paid_to = unless "" v;
            }))))
    else some (
        Endpoint.report (
          payment_report (text_of q) (record {
            period = unless "all" s;
            client_id = unless "all" t;
            paid_from = unless "" u;
            paid_to = unless "" v;
          })))
ask _ = none
