-- ===== src/Scaffold/Spec/Reports.antt =====
-- frontend-react/src/scaffold/ia.ts, SPEC: the sections reports, billing.
use billgen.Prelude.{true, [], ◌∷◌, some}
use billgen.Scaffold.Ia.{IaTree, wired, partial, unbuilt, l2, l3}
use billgen.Scaffold.Spec.Node.{entry, leaf, branch}

abbrev pub reports_section : IaTree
reports_section =
    branch (record (entry "reports" (some "reports") partial l2) { primary = some true })
      (leaf (record (entry "reports.revenue" (some "reports/revenue") wired l2) {
        endpoints = "GET /reports/revenue?year" ∷ [];
      })
        ∷ leaf (record (entry "reports.invoices" (some "reports/invoices") wired l2) {
          endpoints = "GET /reports/invoices?company_id&period" ∷ [];
          note =
              some
                "Wired 2026-08-27 — and the endpoint had shipped well before the screen. This node's previous note said an invoice report ‘would have to be tallied in the browser’, which was true of /invoices and never true of /reports/invoices: counts and money per effective status, plus a monthly series, all server-side. The screen prints `skipped_other_currency` and `draft_count` rather than letting either quietly explain why the columns do not add up.";
        })
        ∷ leaf (record (entry "reports.payments" (some "reports/payments") wired l2) {
          endpoints =
              "GET /payments?company_id&paid_from&paid_to"
              ∷ "GET /reports/payments?company_id&period&client_id" ∷ "GET /invoices"
              ∷ "GET /clients" ∷ [];
          note =
              some
                "Wired 2026-08-27: PaymentsReportPanel lists payments across invoices with a server-side date window, and prints no total because none existed — summing the rows here would be money arithmetic in a React component, wrong the moment the window holds two currencies. GET /reports/payments landed 2026-08-28 and prints one: total, per method, per month, largest, first and last payment date, other currencies counted rather than summed. The panel does not read it yet. Its period is the day the money ARRIVED, so it and /reports/invoices legitimately disagree across a quarter boundary. The invoice list and client list are read as a LOOKUP (a payment carries only invoice_id), never as a filter.";
        })
        ∷ leaf (record (entry "reports.outstanding" (some "reports/outstanding") wired l2) {
          endpoints = "GET /reports/kpi" ∷ [];
        })
        ∷ leaf (record (entry "reports.overdue" (some "reports/overdue") wired l2) {
          endpoints = "GET /reports/kpi" ∷ "GET /invoices?status=overdue" ∷ [];
        })
        ∷ leaf (record (entry "reports.vat" (some "reports/vat") partial l2) {
          endpoints = "GET /reports/vat?period" ∷ [];
          missing = "purchase-side data for the deductible-VAT grids" ∷ [];
          note =
              some
                "GET /reports/vat?period (YYYY, YYYY-Qn, YYYY-MM) returns output VAT per (category, rate), invoices minus credit notes, with the Belgian grid where the mapping is unambiguous. The screen renders it, and says what it is not: sales only, so grids 59/81-83/86-87 and the 71/72 balance cannot be produced and this is never a return ready to file. Still `partial` for exactly that reason - the missing half is purchases, not UI.";
        })
        ∷ leaf (record (entry "reports.clients" (some "reports/clients") unbuilt l2) {
          endpoints = "GET /reports/clients?company_id&period&today" ∷ [];
          missing = "risk signals on GET /reports/clients" ∷ [];
          note =
              some
                "Endpoint landed 2026-08-28: revenue, paid, outstanding and overdue per client, biggest first — the table /clients/{id}/stats would be called once per row to build. What it does NOT carry is the risk half Client 360 promises: average days-to-payment and the share of invoices paid late. Those exist per client in /clients/{id}/stats and are not aggregated anywhere. The screen is missing too.";
        })
        ∷ leaf (record (entry "reports.products" (some "reports/products") unbuilt l2) {
          endpoints = "GET /reports/products?company_id&period" ∷ [];
          note =
              some
                "Endpoint landed 2026-08-28: volume and mix by invoice LINE, free-text lines included under product_id null. Amounts are line net HT carrying no share of an invoice-level discount, so this legitimately sums higher than net revenue in /reports/invoices — whatever renders it must not put the two side by side unlabelled. The screen is what is missing.";
        })
        ∷ leaf (record (entry "reports.export" (some "reports/export") partial l2) {
          endpoints = "GET /backup/export" ∷ [];
          missing = "GET /reports/export?format=csv|xlsx|pdf" ∷ [];
          note = some "/backup/export is a whole-organisation JSON backup, not a report export.";
        })
        ∷ [])

abbrev pub billing_section : IaTree
billing_section =
    branch
      (record (entry "billing" (some "billing") partial l3) {
        note =
            some
              "B4 landed the entitlement layer: the server knows the four tiers, meters every allowance and refuses with a 402. Plan and Usage read it. Everything else here waits on a payment provider - there is nothing to subscribe to, charge or cancel.";
      })
      (leaf (record (entry "billing.subscription" (some "billing/subscription") unbuilt l3) {
        missing = "Subscription model" ∷ "GET /billing/subscription" ∷ "payment provider" ∷ [];
      })
        ∷ leaf (record (entry "billing.plan" (some "billing/plan") wired l3) {
          endpoints = "GET /plans" ∷ "GET /entitlements" ∷ [];
          note =
              some
                "The whole commercial matrix comes from the server (api/entitlements/matrix.py), so the comparison screen holds no copy of it. There is no 'choose this plan' button because there is no checkout - that is billing.change-plan's gap, not this screen's.";
        })
        ∷ leaf (record (entry "billing.usage" (some "billing/usage") wired l3) {
          endpoints = "GET /entitlements" ∷ [];
          note =
              some
                "Every allowance the server meters - invoices and Peppol documents monthly, clients/products/companies/seats as standing totals. Storage is absent because B2 (blob storage) does not exist, so nothing consumes any.";
        })
        ∷ leaf (record (entry "billing.invoices" (some "billing/invoices") unbuilt l3) {
          missing = "GET /billing/invoices" ∷ "Merchant-of-Record integration" ∷ [];
        })
        ∷ leaf (record (entry "billing.payment-method" (some "billing/payment-method") unbuilt l3) {
          missing =
              "hosted card form (never our own field)" ∷ "GET/PUT /billing/payment-method" ∷ [];
        })
        ∷ leaf (record (entry "billing.history" (some "billing/history") unbuilt l3) {
          missing = "GET /billing/history" ∷ [];
        })
        ∷ leaf (record (entry "billing.change-plan" (some "billing/change-plan") unbuilt l3) {
          missing = "POST /billing/subscription/change" ∷ "proration rules" ∷ [];
        })
        ∷ leaf (record (entry "billing.cancel" (some "billing/cancel") unbuilt l3) {
          missing = "POST /billing/subscription/cancel" ∷ "data-retention-after-cancel policy" ∷ [];
        })
        ∷ [])
