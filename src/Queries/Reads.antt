-- ===== src/Queries/Reads.antt =====
-- The queries of frontend-react/src/hooks/queries.ts.
pub mod Ask
pub mod Coherent
use Prim.Native.String.{count}
use billgen.Prelude.{
  ℕ, String, Bool, true, false, not, ◌&&◌, List, [], ◌∷◌, Option, none, some, ◌===◌, leb,
}
use billgen.Client.Calls.Records.{
  AccountCall, me, current_organization, CompanyCall, list_companies, get_company, validate_company,
  ClientCall, list_clients, get_client, client_stats, client_timeline, onboarding_status,
  TemplateCall, list_templates, ProductCall, list_products, ProductsArgument, product_filter,
}
use billgen.Client.Calls.Sales.{
  InvoiceCall, list_invoices, get_invoice, InvoiceFilter, CreditNoteCall, list_credit_notes,
  PaymentCall, list_payments, PaymentFilter, of_invoice, filtered,
}
use billgen.Client.Calls.Reports.{
  ReportCall, alerts, kpi, revenue, activity, ActivityFilter, invoice_report, payment_report,
  PaymentWindow, vat_report, search, ReferenceCall, privacy_register, legal_documents, entitlements,
  plans, vat_rates, pdf_templates, vat_treatment,
}
use billgen.Client.Calls.Backup.{BackupCall, passphrase_notice}
use billgen.Client.Calls.Laws.{Endpoint}
use billgen.Queries.Keys.{Key, word, number, bare, or_word, or_number, nullable}

-- A use of a query hook, with its arguments. The term of a search is the one that its debounce has
-- settled on, trimmed.
pub data Query : Type 0 where
  use_companies use_passphrase_notice use_privacy_register use_legal_documents use_me : Query
  use_current_organization use_onboarding_status use_vat_rates use_pdf_templates : Query
  use_entitlements use_plans : Query
  use_clients use_client use_invoice use_credit_notes use_payments use_company :
      Option String → Query
  use_company_validation : Option String → Query
  use_products : ProductsArgument → Query
  use_invoices : InvoiceFilter → Query
  use_alerts : Option String → Option String → Option ℕ → Query
  use_kpi use_client_stats : Option String → Option String → Query
  use_revenue : Option String → ℕ → Query
  use_activity : ActivityFilter → Query
  use_client_timeline : Option String → Option ℕ → Query
  use_payments_list : PaymentFilter → Query
  use_invoice_report : Option String → Option String → Option String → Query
  use_payment_report : Option String → PaymentWindow → Query
  use_vat_report : Option String → String → Query
  use_templates : Option String → Option String → Query
  use_vat_treatment : Option String → Option String → Option String → Query
  use_search : String → Option ℕ → Query

-- `Boolean(value)`
abbrev pub is_given : Option String → Bool
is_given none = false
is_given (some v) = not (v === "")

unfoldable pub query_key : Query → Key
unfolding product_filter
query_key use_companies = word "companies" ∷ []
query_key (use_clients id) = word "clients" ∷ or_word "all" id ∷ []
query_key (use_client id) = word "clients" ∷ word "detail" ∷ bare id ∷ []
query_key (use_products arg) =
    word "products"
    ∷ or_word "all" (product_filter arg).company_id
    ∷ or_word "any-status" (product_filter arg).status
    ∷ or_word "any-type" (product_filter arg).billing_type
    ∷ []
query_key (use_invoices f) =
    word "invoices"
    ∷ or_word "all" f.company_id
    ∷ or_word "any" f.status
    ∷ or_word "any-client" f.client_id
    ∷ []
query_key (use_invoice id) = word "invoices" ∷ word "detail" ∷ bare id ∷ []
query_key (use_credit_notes id) = word "credit-notes" ∷ or_word "all" id ∷ []
query_key (use_payments id) = word "payments" ∷ bare id ∷ []
query_key (use_alerts id today limit) =
    word "alerts" ∷ bare id ∷ or_word "" today ∷ or_number 0 limit ∷ []
query_key (use_kpi id today) = word "reports" ∷ word "kpi" ∷ bare id ∷ or_word "now" today ∷ []
query_key (use_revenue id year) = word "reports" ∷ word "revenue" ∷ bare id ∷ number year ∷ []
query_key (use_activity f) =
    word "activity"
    ∷ or_number 50 f.limit
    ∷ or_word "all" f.target_type
    ∷ or_word "all-targets" f.target_id
    ∷ []
query_key use_passphrase_notice = word "backup" ∷ word "passphrase-notice" ∷ []
query_key use_privacy_register = word "trust" ∷ word "privacy-register" ∷ []
query_key use_legal_documents = word "trust" ∷ word "legal-documents" ∷ []
query_key use_me = word "me" ∷ []
query_key use_current_organization = word "organization" ∷ []
query_key (use_company id) = word "companies" ∷ word "detail" ∷ bare id ∷ []
query_key (use_company_validation id) = word "company-validation" ∷ bare id ∷ []
query_key use_onboarding_status = word "onboarding" ∷ []
query_key (use_client_stats id today) =
    word "clients" ∷ word "stats" ∷ bare id ∷ or_word "today" today ∷ []
query_key (use_client_timeline id limit) =
    word "clients" ∷ word "timeline" ∷ bare id ∷ or_number 100 limit ∷ []
query_key (use_payments_list f) =
    word "payments"
    ∷ word "list"
    ∷ or_word "all" f.company_id
    ∷ or_word "all" f.client_id
    ∷ or_word "all" f.invoice_id
    ∷ or_word "" f.paid_from
    ∷ or_word "" f.paid_to
    ∷ []
query_key (use_invoice_report id period today) =
    word "reports" ∷ word "invoices" ∷ bare id ∷ or_word "all" period ∷ or_word "" today ∷ []
query_key (use_payment_report id w) =
    word "reports"
    ∷ word "payments"
    ∷ bare id
    ∷ or_word "all" w.period
    ∷ or_word "all" w.client_id
    ∷ or_word "" w.paid_from
    ∷ or_word "" w.paid_to
    ∷ []
query_key (use_vat_report id period) = word "reports" ∷ word "vat" ∷ bare id ∷ word period ∷ []
query_key use_vat_rates = word "reference" ∷ word "vat-rates" ∷ []
query_key use_pdf_templates = word "reference" ∷ word "pdf-templates" ∷ []
query_key use_entitlements = word "entitlements" ∷ []
query_key use_plans = word "plans" ∷ []
query_key (use_templates id doc_type) =
    word "templates" ∷ or_word "all" id ∷ or_word "all" doc_type ∷ []
query_key (use_vat_treatment seller buyer lang) =
    word "vat-treatment" ∷ bare seller ∷ bare buyer ∷ or_word "" lang ∷ []
query_key (use_search q limit) = word "search" ∷ word q ∷ nullable limit ∷ []

-- `enabled`, where a hook sets it.
unfoldable pub enabled : Query → Bool
enabled (use_client id) = is_given id
enabled (use_invoice id) = is_given id
enabled (use_payments id) = is_given id
enabled (use_company id) = is_given id
enabled (use_company_validation id) = is_given id
enabled (use_alerts id today limit) = is_given id
enabled (use_kpi id today) = is_given id
enabled (use_revenue id year) = is_given id
enabled (use_activity f) = elim f.target_id [ none ↦ true | some t ↦ not (t === "") ]
enabled (use_client_stats id today) = is_given id
enabled (use_client_timeline id limit) = is_given id
enabled (use_invoice_report id period today) = is_given id
enabled (use_payment_report id w) = is_given id
enabled (use_vat_report id period) = is_given id && not (period === "")
enabled (use_vat_treatment seller buyer lang) = is_given seller && is_given buyer
enabled (use_search q limit) = leb 2 (count q)
enabled _ = true

-- A value where a text is wanted, as JavaScript writes it out.
abbrev pub written : Option String → String
written none = "undefined"
written (some v) = v

-- The call of `queryFn`.
unfoldable pub query_call : Query → Endpoint
query_call use_companies = Endpoint.company list_companies
query_call (use_clients id) = Endpoint.client (list_clients id)
query_call (use_client id) = Endpoint.client (get_client (written id))
query_call (use_products arg) = Endpoint.product (list_products arg)
query_call (use_invoices f) = Endpoint.invoice (list_invoices f)
query_call (use_invoice id) = Endpoint.invoice (get_invoice (written id))
query_call (use_credit_notes id) = Endpoint.credit_note (list_credit_notes id)
query_call (use_payments id) = Endpoint.payment (list_payments (of_invoice (written id)))
query_call (use_alerts id today limit) = Endpoint.report (alerts (written id) today limit)
query_call (use_kpi id today) = Endpoint.report (kpi (written id) today)
query_call (use_revenue id year) = Endpoint.report (revenue (written id) year)
query_call (use_activity f) = Endpoint.report (activity f)
query_call use_passphrase_notice = Endpoint.backup passphrase_notice
query_call use_privacy_register = Endpoint.reference privacy_register
query_call use_legal_documents = Endpoint.reference legal_documents
query_call use_me = Endpoint.account me
query_call use_current_organization = Endpoint.account current_organization
query_call (use_company id) = Endpoint.company (get_company (written id))
query_call (use_company_validation id) = Endpoint.company (validate_company (written id))
query_call use_onboarding_status = Endpoint.client onboarding_status
query_call (use_client_stats id today) = Endpoint.client (client_stats (written id) today)
query_call (use_client_timeline id limit) = Endpoint.client (client_timeline (written id) limit)
query_call (use_payments_list f) = Endpoint.payment (list_payments (filtered f))
query_call (use_invoice_report id period today) =
    Endpoint.report (invoice_report (written id) period today)
query_call (use_payment_report id w) = Endpoint.report (payment_report (written id) w)
query_call (use_vat_report id period) = Endpoint.report (vat_report (written id) period)
query_call use_vat_rates = Endpoint.reference vat_rates
query_call use_pdf_templates = Endpoint.reference pdf_templates
query_call use_entitlements = Endpoint.reference entitlements
query_call use_plans = Endpoint.reference plans
query_call (use_templates id doc_type) = Endpoint.template (list_templates id doc_type)
query_call (use_vat_treatment seller buyer lang) =
    Endpoint.reference (vat_treatment (written seller) (written buyer) lang)
query_call (use_search q limit) = Endpoint.report (search q limit)
