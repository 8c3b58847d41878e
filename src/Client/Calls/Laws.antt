-- ===== src/Client/Calls/Laws.antt =====
-- What holds of every endpoint method.
use billgen.Prelude.{
  String, true, false, ◌≡◌, refl, ◌⊎◌, List, [], ◌∷◌, ◌++◌, Option, none, some, arith, ◌===◌,
  if◌then◌else◌, ◌≢◌,
}
use billgen.Client.Request.{Call}
use billgen.Client.Calls.Build.{Platform, set_if}
use billgen.Client.Calls.Records.{
  AccountCall, CompanyCall, ClientCall, TemplateCall, ProductCall, account_plan, company_plan,
  client_plan, template_plan, product_plan, ProductsArgument, product_filter, product_params,
}
use billgen.Client.Calls.Sales.{
  InvoiceCall, CreditNoteCall, PaymentCall, invoice_plan, credit_note_plan, payment_plan,
  PaymentsArgument, payment_filter, payment_params, InvoiceFilter, invoice_params,
}
use billgen.Client.Calls.Reports.{
  ReportCall, ReferenceCall, report_plan, reference_plan, PaymentWindow, payment_report_params,
}
use billgen.Client.Calls.Backup.{BackupCall, backup_plan}

-- A method of any section that goes through `request`.
pub data Endpoint : Type 0 where
  account : AccountCall → Endpoint
  company : CompanyCall → Endpoint
  client : ClientCall → Endpoint
  template : TemplateCall → Endpoint
  product : ProductCall → Endpoint
  invoice : InvoiceCall → Endpoint
  credit_note : CreditNoteCall → Endpoint
  payment : PaymentCall → Endpoint
  report : ReportCall → Endpoint
  reference : ReferenceCall → Endpoint
  backup : BackupCall → Endpoint

unfoldable pub plan : Platform → Endpoint → Call
plan p (account c) = account_plan c
plan p (company c) = company_plan c
plan p (client c) = client_plan p c
plan p (template c) = template_plan p c
plan p (product c) = product_plan p c
plan p (invoice c) = invoice_plan p c
plan p (credit_note c) = credit_note_plan c
plan p (payment c) = payment_plan p c
plan p (report c) = report_plan p c
plan p (reference c) = reference_plan p c
plan p (backup c) = backup_plan c

-- How a method may use HTTP: a read has no body, a removal neither body nor blob, and only a read
-- asks for a blob.
abbrev pub IsWellFormed : Call → Type 0
IsWellFormed c =
    ((c.method ≡ "GET") × (c.body ≡ none))
    ⊎ ((c.method ≡ "POST") × (c.blob ≡ false))
    ⊎ ((c.method ≡ "PATCH") × (c.body ≢ none) × (c.blob ≡ false))
    ⊎ ((c.method ≡ "DELETE") × (c.body ≡ none) × (c.blob ≡ false))

-- Every method of these sections is authenticated and well formed, with whatever arguments.
plan-IsWellFormed :
    (p : Platform) (e : Endpoint) → ((plan p e).auth ≡ true) × IsWellFormed (plan p e)
unfolding plan account_plan company_plan client_plan template_plan product_plan invoice_plan
    credit_note_plan payment_plan report_plan reference_plan backup_plan
plan-IsWellFormed p e = ground arith

-- The value of a filter that is sent: "" is as good as no filter.
abbrev pub given : Option String → Option String
given none = none
given (some v) = if v === "" then none else some v

abbrev pub sent_for : String → List (String × String) → Option String
sent_for k [] = none
sent_for k ((j, v) ∷ ps) = if j === k then some v else sent_for k ps

abbrev or_else : Option String → Option String → Option String
or_else none later = later
or_else (some v) later = some v

or_else-none : (o : Option String) → or_else o none ≡ o
or_else-none none = refl
or_else-none (some v) = refl

sent_for-set_if :
    (j k : String) (v : Option String) (ps : List (String × String))
    → sent_for k (set_if j v ++ ps)
      ≡ (if j === k then or_else (given v) (sent_for k ps) else sent_for k ps)
sent_for-set_if j k none ps = ground arith
sent_for-set_if j k (some v) ps = ground arith

sent_for-last :
    (j k : String) (v : Option String)
    → sent_for k (set_if j v) ≡ (if j === k then given v else none)
sent_for-last j k none = ground arith
sent_for-last j k (some v) = ground arith

ruleset filter_laws = (sent_for-set_if, sent_for-last, or_else-none)

-- What the filters of the four calls send, name by name.
abbrev pub FiltersSent :
    InvoiceFilter → ProductsArgument → PaymentsArgument → String → PaymentWindow → Type 0
FiltersSent i products payments id w =
    let f = product_filter products in
    let g = payment_filter payments in
    let ips = invoice_params i in
    let fps = product_params f in
    let gps = payment_params g in
    let wps = payment_report_params id w in
    ((sent_for "company_id" ips ≡ given i.company_id)
      × (sent_for "status" ips ≡ given i.status)
      × (sent_for "client_id" ips ≡ given i.client_id))
    × ((sent_for "company_id" fps ≡ given f.company_id)
        × (sent_for "status" fps ≡ given f.status)
        × (sent_for "billing_type" fps ≡ given f.billing_type))
    × ((sent_for "invoice_id" gps ≡ given g.invoice_id)
        × (sent_for "company_id" gps ≡ given g.company_id)
        × (sent_for "client_id" gps ≡ given g.client_id)
        × (sent_for "paid_from" gps ≡ given g.paid_from)
        × (sent_for "paid_to" gps ≡ given g.paid_to))
    × ((sent_for "company_id" wps ≡ some id)
        × (sent_for "period" wps ≡ given w.period)
        × (sent_for "client_id" wps ≡ given w.client_id)
        × (sent_for "paid_from" wps ≡ given w.paid_from)
        × (sent_for "paid_to" wps ≡ given w.paid_to))

-- Each filter of `listInvoices`, `listProducts` and `listPayments` (given as one id or as a record) is
-- sent under its own name exactly where it is not empty, and so is each of `paymentReport`, whose
-- company is always sent.
filters-sent :
    (i : InvoiceFilter) (products : ProductsArgument) (payments : PaymentsArgument) (id : String)
    (w : PaymentWindow)
    → FiltersSent i products payments id w
filters-sent i products payments id w = (
  (simp filter_laws, simp filter_laws, simp filter_laws),
  (simp filter_laws, simp filter_laws, simp filter_laws),
  (simp filter_laws, simp filter_laws, simp filter_laws, simp filter_laws, simp filter_laws),
  (refl, simp filter_laws, simp filter_laws, simp filter_laws, simp filter_laws),
)
