-- ===== src/Scaffold/Spec/Sales.antt =====
-- frontend-react/src/scaffold/ia.ts, SPEC: the section sales.
use billgen.Prelude.{true, false, List, [], ◌∷◌, some}
use billgen.Scaffold.Ia.{IaTree, wired, partial, unbuilt, l1, l2}
use billgen.Scaffold.Spec.Node.{entry, leaf, branch}

abbrev pub sales_invoices : IaTree
sales_invoices =
    branch
      (record (entry "sales.invoices" (some "sales/invoices") wired l1) {
        endpoints =
            "GET /invoices?company_id&status" ∷ "POST /invoices" ∷ "POST /invoices/{id}/issue"
            ∷ "POST /invoices/{id}/void" ∷ "DELETE /invoices/{id}" ∷ [];
      })
      (leaf (record (entry "sales.invoices.draft" (some "sales/invoices/draft") wired l1) {
        endpoints = "GET /invoices?status=draft" ∷ [];
      })
        ∷ leaf (record (entry "sales.invoices.issued" (some "sales/invoices/issued") wired l1) {
          endpoints = "GET /invoices?status=issued" ∷ [];
        })
        ∷ leaf (record (entry "sales.invoices.sent" (some "sales/invoices/sent") unbuilt l2) {
          missing =
              "InvoiceStatus.SENT" ∷ "POST /invoices/{id}/send" ∷ "GET /invoices?status=sent" ∷ [];
          note =
              some
                "InvoiceStatus has no 'sent' member — the domain has no concept of delivery yet. Requires an email/Peppol dispatch service.";
        })
        ∷ leaf (record (entry "sales.invoices.viewed" (some "sales/invoices/viewed") unbuilt l2) {
          missing =
              "InvoiceStatus.VIEWED" ∷ "GET /invoices/{id}/tracking"
              ∷ "public receipt-pixel or portal endpoint" ∷ [];
          note = some "Needs a client-facing invoice portal to observe a view at all.";
        })
        ∷ leaf (record (entry "sales.invoices.paid" (some "sales/invoices/paid") wired l1) {
          endpoints = "GET /invoices?status=paid" ∷ [];
        })
        ∷ leaf
            (record (entry "sales.invoices.partial" (some "sales/invoices/partially_paid") wired
              l1) { endpoints = "GET /invoices?status=partially_paid" ∷ [] })
        ∷ leaf (record (entry "sales.invoices.overdue" (some "sales/invoices/overdue") wired l1) {
          endpoints = "GET /invoices?status=overdue" ∷ [];
        })
        ∷ leaf (record (entry "sales.invoices.voided" (some "sales/invoices/voided") wired l1) {
          endpoints = "GET /invoices?status=voided" ∷ [];
          note = some "The domain calls this 'voided'; the UI label follows the user's vocabulary.";
        })
        ∷ [])

abbrev pub sales_documents : List IaTree
sales_documents =
    leaf (record (entry "sales.invoice.detail" (some "sales/invoices/id/:invoiceId") partial l2) {
      endpoints =
          "GET /invoices/{id}" ∷ "GET /invoices/{id}/pdf" ∷ "GET /invoices/{id}/peppol.xml"
          ∷ "GET /payments?invoice_id" ∷ "POST /payments" ∷ "POST /invoices/{id}/issue"
          ∷ "POST /invoices/{id}/void" ∷ "DELETE /invoices/{id}" ∷ "GET /activity?target_id"
          ∷ "POST /invoices/{id}/duplicate" ∷ [];
      missing = "POST /invoices/{id}/send" ∷ [];
      note =
          some
            "Header, lines, frozen totals, payments, exports, duplicate and the full audit timeline are real: /activity grew target_id, and every invoice event — including payments — is written with target_type=\"invoice\" and target_id=<invoice id>. Only delivery is fiction: InvoiceStatus has no SENT or VIEWED member and there is no email transport, so Send alone stays in a scaffold block inside the screen. Duplicate left it 2026-08-27 — the endpoint had shipped and the scaffold was describing a gap that had closed. Not a nav destination (§11b): same :invoiceId problem as Client 360, and the same fix. Reached from the invoice list.";
      nav = some false;
    })
    ∷ leaf (record (entry "sales.creditnotes" (some "sales/credit-notes") wired l2) {
      endpoints =
          "GET /credit-notes" ∷ "POST /credit-notes" ∷ "GET /credit-notes/{id}"
          ∷ "GET /credit-notes/{id}/pdf" ∷ [];
    })
    ∷ leaf (record (entry "sales.recurring" (some "sales/recurring") unbuilt l2) {
      missing =
          "RecurringInvoice model" ∷ "CRUD /recurring-invoices" ∷ "scheduler / job runner" ∷ [];
      note =
          some
            "Product.billing_type already has a RECURRING member, but nothing schedules or generates anything.";
    })
    ∷ leaf (record (entry "sales.quotes" (some "sales/quotes") unbuilt l2) {
      endpoints =
          "POST /quotes" ∷ "GET /quotes?company_id&status&client_id" ∷ "GET /quotes/{id}"
          ∷ "POST /quotes/{id}/{send,accept,reject,expire}" ∷ "POST /quotes/{id}/convert"
          ∷ "DELETE /quotes/{id}" ∷ [];
      missing = "PDF template" ∷ [];
      note =
          some
            "Backend landed 2026-08-28. Its own numbering series (Q-{prefix}{YYYY}/{NNNN}, sequence scope 'quote'), never the invoice one — a refused offer must not leave a hole in a gapless series. Converting produces a DRAFT invoice: the gapless number is still consumed by POST /invoices/{id}/issue and nowhere else. Expiry is derived, so the response carries `effective_status` beside `status`. What is left is the screen, plus a quote PDF template — the latter is wording, which is a decision rather than a coding gap.";
    })
    ∷ leaf (record (entry "sales.proforma" (some "sales/proforma") unbuilt l2) {
      missing = "proforma flag on Invoice or its own series" ∷ "PDF template" ∷ [];
      note =
          some
            "A pro-forma must NOT consume a gapless invoice number — this touches core/repository/sequence_repo.";
    })
    ∷ leaf (record (entry "sales.reminders" (some "sales/reminders") unbuilt l2) {
      missing =
          "Reminder model + schedule" ∷ "email transport" ∷ "Belgian legal reminder templates" ∷ [];
    })
    ∷ []

abbrev pub sales_section : IaTree
sales_section =
    branch (record (entry "sales" (some "sales") partial l1) { primary = some true })
      (sales_invoices ∷ sales_documents)
