-- ===== src/Client/Calls/Reports.antt =====
-- The sections on trust, reports, activity, search, entitlements and reference data of
-- frontend-react/src/lib/apiClient.ts.
use billgen.Prelude.{ℕ, String, List, [], ◌∷◌, ◌++◌, Option}
use billgen.Client.Request.{Call}
use billgen.Client.Calls.Build.{
  ◌&◌, get, Platform, set_if, set_if_positive, set_if_given, query, splice_if,
}

pub record ActivityFilter : Type 0 where
  pub limit : Option ℕ
  pub target_type : Option String
  pub target_id : Option String

pub record PaymentWindow : Type 0 where
  pub period : Option String
  pub client_id : Option String
  pub paid_from : Option String
  pub paid_to : Option String

pub data ReportCall : Type 0 where
  alerts : String → Option String → Option ℕ → ReportCall
  kpi : String → Option String → ReportCall
  revenue : String → ℕ → ReportCall
  activity : ActivityFilter → ReportCall
  invoice_report : String → Option String → Option String → ReportCall
  payment_report : String → PaymentWindow → ReportCall
  vat_report : String → String → ReportCall
  search : String → Option ℕ → ReportCall

abbrev pub alert_params : Platform → String → Option String → Option ℕ → List (String × String)
alert_params p company today limit =
    ("company_id", company) ∷ (set_if "today" today ++ set_if_given p "limit" limit)

abbrev pub activity_params : Platform → ActivityFilter → List (String × String)
activity_params p f =
    set_if_positive p "limit" f.limit
    ++ (set_if "target_type" f.target_type ++ set_if "target_id" f.target_id)

abbrev pub payment_report_params : String → PaymentWindow → List (String × String)
payment_report_params company f =
    ("company_id", company)
    ∷ (set_if "period" f.period
        ++ (set_if "client_id" f.client_id
            ++ (set_if "paid_from" f.paid_from ++ set_if "paid_to" f.paid_to)))

unfoldable pub report_plan : Platform → ReportCall → Call
report_plan p (alerts company today limit) =
    get ("/alerts?" & p.encode (alert_params p company today limit))
report_plan p (kpi company today) =
    get ("/reports/kpi?company_id=" & company & splice_if "&today=" today)
report_plan p (revenue company year) =
    get ("/reports/revenue?company_id=" & company & "&year=" & p.decimal year)
report_plan p (activity f) = get ("/activity" & query p (activity_params p f))
report_plan p (invoice_report company period today) = get (
    "/reports/invoices?"
    & p.encode (("company_id", company) ∷ (set_if "period" period ++ set_if "today" today)))
report_plan p (payment_report company f) =
    get ("/reports/payments?" & p.encode (payment_report_params company f))
report_plan p (vat_report company period) =
    get ("/reports/vat?" & p.encode (("company_id", company) ∷ ("period", period) ∷ []))
report_plan p (search q limit) =
    get ("/search?" & p.encode (("q", q) ∷ set_if_given p "limit" limit))

pub data ReferenceCall : Type 0 where
  privacy_register legal_documents entitlements plans vat_rates pdf_templates : ReferenceCall
  vat_treatment : String → String → Option String → ReferenceCall

unfoldable pub reference_plan : Platform → ReferenceCall → Call
reference_plan p privacy_register = get "/trust/privacy/register"
reference_plan p legal_documents = get "/trust/legal/documents"
reference_plan p entitlements = get "/entitlements"
reference_plan p plans = get "/plans"
reference_plan p vat_rates = get "/vat-rates"
reference_plan p (vat_treatment company client lang) = get (
    "/vat-treatment?"
    & p.encode (("company_id", company) ∷ ("client_id", client) ∷ set_if "lang" lang))
reference_plan p pdf_templates = get "/pdf-templates"
