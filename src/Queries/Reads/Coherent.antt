-- ===== src/Queries/Reads/Coherent.antt =====
-- The keys of the queries against the calls that answer them.
use mathlib.Core.Option.{some-injective}
use text.Mathlib.TextPositions.{eq_refl}
use billgen.Prelude.{
  ℕ, String, Bool, false, Option, none, some, ◌≡◌, refl, sym, ap, ◌∙◌, ◌===◌, ◌==◌, arith,
}
use billgen.Client.Request.{Call}
use billgen.Client.Calls.Build.{Platform}
use billgen.Client.Calls.Records.{product_filter, product_plan}
use billgen.Client.Calls.Laws.{Endpoint, plan}
use billgen.Queries.Keys.{bare, or_word, or_number, nullable}
use billgen.Queries.Reads.{
  Query, query_key, query_call, written, use_companies, use_clients, use_client, use_products,
  use_invoices, use_invoice, use_credit_notes, use_payments, use_alerts, use_kpi, use_revenue,
  use_activity, use_passphrase_notice, use_privacy_register, use_legal_documents, use_me,
  use_current_organization, use_company, use_company_validation, use_onboarding_status,
  use_client_stats, use_client_timeline, use_payments_list, use_invoice_report, use_payment_report,
  use_vat_report, use_vat_rates, use_pdf_templates, use_entitlements, use_plans, use_templates,
  use_vat_treatment, use_search,
}
use billgen.Queries.Reads.Ask.{unless, unless_number, text_of, number_or_none, ask}

-- The value is given, and is the text, or the number, that stands in a key for its absence.
abbrev spells : String → Option String → Bool
spells fallback none = false
spells fallback (some v) = v === fallback

abbrev counts : ℕ → Option ℕ → Bool
counts fallback none = false
counts fallback (some n) = n == fallback

-- No argument of the query is spelled like the absence of it.
abbrev pub IsPlain : Query → Type 0
IsPlain (use_clients id) = spells "all" id ≡ false
IsPlain (use_credit_notes id) = spells "all" id ≡ false
IsPlain (use_products arg) =
    let f = product_filter arg in
    (spells "all" f.company_id ≡ false)
    × (spells "any-status" f.status ≡ false)
    × (spells "any-type" f.billing_type ≡ false)
IsPlain (use_invoices f) =
    (spells "all" f.company_id ≡ false)
    × (spells "any" f.status ≡ false)
    × (spells "any-client" f.client_id ≡ false)
IsPlain (use_alerts id today limit) = (spells "" today ≡ false) × (counts 0 limit ≡ false)
IsPlain (use_kpi id today) = spells "now" today ≡ false
IsPlain (use_activity f) =
    (counts 50 f.limit ≡ false)
    × (spells "all" f.target_type ≡ false)
    × (spells "all-targets" f.target_id ≡ false)
IsPlain (use_client_stats id today) = spells "today" today ≡ false
IsPlain (use_client_timeline id limit) = counts 100 limit ≡ false
IsPlain (use_payments_list f) =
    (spells "all" f.company_id ≡ false)
    × (spells "all" f.client_id ≡ false)
    × (spells "all" f.invoice_id ≡ false)
    × (spells "" f.paid_from ≡ false)
    × (spells "" f.paid_to ≡ false)
IsPlain (use_invoice_report id period today) =
    (spells "all" period ≡ false) × (spells "" today ≡ false)
IsPlain (use_payment_report id w) =
    (spells "all" w.period ≡ false)
    × (spells "all" w.client_id ≡ false)
    × (spells "" w.paid_from ≡ false)
    × (spells "" w.paid_to ≡ false)
IsPlain (use_templates id doc_type) = (spells "all" id ≡ false) × (spells "all" doc_type ≡ false)
IsPlain (use_vat_treatment seller buyer lang) = spells "" lang ≡ false
IsPlain _ = Unit

unless-or_word : (f : String) (o : Option String) → spells f o ≡ false → unless f (or_word f o) ≡ o
unless-or_word f none h = simp (eq_refl f)
unless-or_word f (some v) h = simp h

unless-or_number : (n : ℕ) (o : Option ℕ) → counts n o ≡ false → unless_number n (or_number n o) ≡ o
unless-or_number n none h = ground arith
unless-or_number n (some m) h = simp h

text_of-bare : (o : Option String) → text_of (bare o) ≡ written o
text_of-bare none = refl
text_of-bare (some v) = refl

nullable-number : (o : Option ℕ) → number_or_none (nullable o) ≡ o
nullable-number none = refl
nullable-number (some n) = refl

abbrev asked : Platform → Option Endpoint → Option Call
asked p none = none
asked p (some e) = some (plan p e)

ask-query_key :
    (p : Platform) (q : Query)
    → IsPlain q
    → asked p (ask (query_key q)) ≡ some (plan p (query_call q))
unfolding query_key query_call plan product_plan product_filter
ask-query_key p use_companies h = refl
ask-query_key p (use_clients id) h = rw (unless-or_word "all" id h)
ask-query_key p (use_client id) h = rw (text_of-bare id)
ask-query_key p (use_products arg) h = rw (
  unless-or_word "all" (product_filter arg).company_id h.0,
  unless-or_word "any-status" (product_filter arg).status h.1,
  unless-or_word "any-type" (product_filter arg).billing_type h.2,
)
ask-query_key p (use_invoices f) h = rw (
  unless-or_word "all" f.company_id h.0,
  unless-or_word "any" f.status h.1,
  unless-or_word "any-client" f.client_id h.2,
)
ask-query_key p (use_invoice id) h = rw (text_of-bare id)
ask-query_key p (use_credit_notes id) h = rw (unless-or_word "all" id h)
ask-query_key p (use_payments id) h = rw (text_of-bare id)
ask-query_key p (use_alerts id today limit) h =
    rw (text_of-bare id, unless-or_word "" today h.0, unless-or_number 0 limit h.1)
ask-query_key p (use_kpi id today) h = rw (text_of-bare id, unless-or_word "now" today h)
ask-query_key p (use_revenue id year) h = rw (text_of-bare id)
ask-query_key p (use_activity f) h = rw (
  unless-or_number 50 f.limit h.0,
  unless-or_word "all" f.target_type h.1,
  unless-or_word "all-targets" f.target_id h.2,
)
ask-query_key p use_passphrase_notice h = refl
ask-query_key p use_privacy_register h = refl
ask-query_key p use_legal_documents h = refl
ask-query_key p use_me h = refl
ask-query_key p use_current_organization h = refl
ask-query_key p (use_company id) h = rw (text_of-bare id)
ask-query_key p (use_company_validation id) h = rw (text_of-bare id)
ask-query_key p use_onboarding_status h = refl
ask-query_key p (use_client_stats id today) h = rw (text_of-bare id, unless-or_word "today" today h)
ask-query_key p (use_client_timeline id limit) h =
    rw (text_of-bare id, unless-or_number 100 limit h)
ask-query_key p (use_payments_list f) h = rw (
  unless-or_word "all" f.company_id h.0,
  unless-or_word "all" f.client_id h.1,
  unless-or_word "all" f.invoice_id h.2,
  unless-or_word "" f.paid_from h.3,
  unless-or_word "" f.paid_to h.4,
)
ask-query_key p (use_invoice_report id period today) h =
    rw (text_of-bare id, unless-or_word "all" period h.0, unless-or_word "" today h.1)
ask-query_key p (use_payment_report id w) h = rw (
  text_of-bare id,
  unless-or_word "all" w.period h.0,
  unless-or_word "all" w.client_id h.1,
  unless-or_word "" w.paid_from h.2,
  unless-or_word "" w.paid_to h.3,
)
ask-query_key p (use_vat_report id period) h = rw (text_of-bare id)
ask-query_key p use_vat_rates h = refl
ask-query_key p use_pdf_templates h = refl
ask-query_key p use_entitlements h = refl
ask-query_key p use_plans h = refl
ask-query_key p (use_templates id doc_type) h =
    rw (unless-or_word "all" id h.0, unless-or_word "all" doc_type h.1)
ask-query_key p (use_vat_treatment seller buyer lang) h =
    rw (text_of-bare seller, text_of-bare buyer, unless-or_word "" lang h)
ask-query_key p (use_search q limit) h = rw (nullable-number limit)

-- Two queries with the same key are answered by the same request, whichever hooks they come from. The
-- condition is that no argument spells the word, or the number, by which its key says that it is absent.
pub query_key-plan :
    (p : Platform) (a b : Query)
    → IsPlain a
    → IsPlain b
    → query_key a ≡ query_key b
    → plan p (query_call a) ≡ plan p (query_call b)
query_key-plan p a b h k e =
    some-injective _ _
      (sym (ask-query_key p a h) ∙ ap (λ key. asked p (ask key)) e ∙ ask-query_key p b k)
