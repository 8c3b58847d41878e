-- ===== src/Client/Calls/Sales.antt =====
-- The sections on invoices, credit notes and payments of frontend-react/src/lib/apiClient.ts.
use billgen.Prelude.{String, List, Option, none, some, ◌++◌}
use billgen.Json.{Json}
use billgen.Client.Request.{Call}
use billgen.Client.Calls.Build.{
  ◌&◌, call, get, get_blob, post, empty, single, Platform, set_if, query, splice_if,
}

pub record InvoiceFilter : Type 0 where
  pub company_id : Option String
  pub status : Option String
  pub client_id : Option String

pub data InvoiceCall : Type 0 where
  preview_invoice create_invoice : Json → InvoiceCall
  list_invoices : InvoiceFilter → InvoiceCall
  get_invoice delete_invoice duplicate_invoice invoice_peppol_xml : String → InvoiceCall
  issue_invoice : String → Option Json → InvoiceCall
  void_invoice : String → String → InvoiceCall
  invoice_html invoice_pdf : String → Option String → InvoiceCall

abbrev pub invoice_params : InvoiceFilter → List (String × String)
invoice_params f =
    set_if "company_id" f.company_id ++ (set_if "status" f.status ++ set_if "client_id" f.client_id)

-- `body ?? {}`
abbrev or_empty : Option Json → Json
or_empty none = empty
or_empty (some v) = v

unfoldable pub invoice_plan : Platform → InvoiceCall → Call
invoice_plan p (preview_invoice body) = post "/invoices/preview" body
invoice_plan p (create_invoice body) = post "/invoices" body
invoice_plan p (list_invoices f) = get ("/invoices" & query p (invoice_params f))
invoice_plan p (get_invoice id) = get ("/invoices/" & id)
invoice_plan p (issue_invoice id body) = post ("/invoices/" & id & "/issue") (or_empty body)
invoice_plan p (delete_invoice id) = call "DELETE" ("/invoices/" & id) none
invoice_plan p (duplicate_invoice id) = call "POST" ("/invoices/" & id & "/duplicate") none
invoice_plan p (void_invoice id reason) =
    post ("/invoices/" & id & "/void") (single "reason" reason)
invoice_plan p (invoice_html id template) =
    get_blob ("/invoices/" & id & "/html" & splice_if "?template=" template)
invoice_plan p (invoice_pdf id template) =
    get_blob ("/invoices/" & id & "/pdf" & splice_if "?template=" template)
invoice_plan p (invoice_peppol_xml id) = get_blob ("/invoices/" & id & "/peppol.xml")

pub data CreditNoteCall : Type 0 where
  issue_credit_note : Json → CreditNoteCall
  list_credit_notes : Option String → CreditNoteCall
  credit_note_pdf : String → CreditNoteCall

unfoldable pub credit_note_plan : CreditNoteCall → Call
credit_note_plan (issue_credit_note body) = post "/credit-notes" body
credit_note_plan (list_credit_notes company) =
    get ("/credit-notes" & splice_if "?company_id=" company)
credit_note_plan (credit_note_pdf id) = get_blob ("/credit-notes/" & id & "/pdf")

pub record PaymentFilter : Type 0 where
  pub invoice_id : Option String
  pub company_id : Option String
  pub client_id : Option String
  pub paid_from : Option String
  pub paid_to : Option String

-- The argument of `listPayments`: an invoice's id, or a filter.
pub data PaymentsArgument : Type 0 where
  of_invoice : String → PaymentsArgument
  filtered : PaymentFilter → PaymentsArgument

unfoldable pub payment_filter : PaymentsArgument → PaymentFilter
payment_filter (of_invoice id) = record {
  invoice_id = some id;
  company_id = none;
  client_id = none;
  paid_from = none;
  paid_to = none;
}
payment_filter (filtered f) = f

abbrev pub payment_params : PaymentFilter → List (String × String)
payment_params f =
    set_if "invoice_id" f.invoice_id
    ++ (set_if "company_id" f.company_id
        ++ (set_if "client_id" f.client_id
            ++ (set_if "paid_from" f.paid_from ++ set_if "paid_to" f.paid_to)))

pub data PaymentCall : Type 0 where
  record_payment : Json → PaymentCall
  list_payments : PaymentsArgument → PaymentCall

unfoldable pub payment_plan : Platform → PaymentCall → Call
payment_plan p (record_payment body) = post "/payments" body
payment_plan p (list_payments arg) =
    get ("/payments" & query p (payment_params (payment_filter arg)))
