-- ===== src/Scaffold/Spec/Records.antt =====
-- frontend-react/src/scaffold/ia.ts, SPEC: the sections customers, catalog.
use billgen.Prelude.{true, false, [], ◌∷◌, some}
use billgen.Scaffold.Ia.{IaTree, wired, partial, unbuilt, l1, l2}
use billgen.Scaffold.Spec.Node.{entry, leaf, branch}

abbrev pub customers_section : IaTree
customers_section =
    branch (record (entry "customers" (some "customers") partial l1) { primary = some true })
      (leaf (record (entry "customers.clients" (some "customers/clients") wired l1) {
        endpoints =
            "GET /clients" ∷ "POST /clients" ∷ "GET /clients/{id}" ∷ "PATCH /clients/{id}" ∷ [];
      })
        ∷ leaf (record (entry "customers.detail" (some "customers/clients/:clientId") partial l2) {
          endpoints =
              "GET /clients/{id}" ∷ "GET /clients/{id}/stats" ∷ "GET /invoices?client_id"
              ∷ "GET /activity?target_id" ∷ [];
          missing =
              "Document model + CRUD /documents" ∷ "ClientGroup model + CRUD /client-groups"
              ∷ "GET /reports/clients" ∷ [];
          note =
              some
                "Identity, invoice history, the totals strip (GET /clients/{id}/stats, wired 2026-09-11) and the audit trail are real. Quotes, documents, tags and risk flags are quarantined into scaffold blocks inside the screen — each maps to a model that does not exist rather than to a screen nobody built. Not a nav destination (§11b): its path carries :clientId, so a menu entry for it navigates to the literal string. It was one until 2026-08-27 — a dead link nobody clicked because the record is reached by clicking a row, which is the point of the rule.";
          nav = some false;
        })
        ∷ leaf (record (entry "customers.contacts" (some "customers/contacts") unbuilt l2) {
          missing = "Contact model (many per client)" ∷ "CRUD /contacts" ∷ [];
          note =
              some
                "Client currently carries one flat email/phone. Multiple named contacts is a schema change. Curated out of the nav 2026-08-27 (§11b): contacts belong to A client, so the destination is the client list — pick the record, then read its contacts in Client 360.";
          nav = some false;
          merged_into = some "customers/clients";
        })
        ∷ leaf (record (entry "customers.groups" (some "customers/groups") unbuilt l2) {
          missing = "ClientGroup model" ∷ "CRUD /client-groups" ∷ [];
        })
        ∷ leaf (record (entry "customers.history" (some "customers/history") unbuilt l2) {
          missing = "GET /clients/{id}/timeline (invoices + payments + credit notes)" ∷ [];
          note =
              some
                "The COMMERCIAL relationship over time — what was invoiced, what was paid, what was credited. Not the audit log: invoice, payment and credit-note entries are written with target_type=\"invoice\" and target_id=<invoice id>, and carry no client_id anywhere, not even in their `after` payload. So GET /activity?target_id={client} can never return them — it returns only the three things written against a client row (created, edited, imported). That is customers.activity, one node down. This needs a join the server does not expose. Curated out of the nav 2026-08-27 (§11b): per-client by definition. Redirects to the list rather than to the 360 screen because that screen needs a client id and this path carries none.";
          nav = some false;
          merged_into = some "customers/clients";
        })
        ∷ leaf (record (entry "customers.documents" (some "customers/documents") unbuilt l2) {
          missing = "blob storage" ∷ "Document model" ∷ "CRUD /documents" ∷ [];
          note =
              some
                "Curated out of the nav 2026-08-27 (§11b): a per-client document list is a 360 tab; the CROSS-client version is a different question and belongs to the Documents section.";
          nav = some false;
          merged_into = some "customers/clients";
        })
        ∷ leaf (record (entry "customers.activity" (some "customers/activity") wired l2) {
          endpoints = "GET /activity?target_type=client" ∷ "GET /activity?target_id" ∷ [];
          note =
              some
                "Who touched this client RECORD: created, edited, imported. Deliberately narrow — the commercial timeline is customers.history, and the who-did-what-in-the-app axis is the Activity section (activity.user, filtered by actor rather than target). Curated out of the nav 2026-08-27 (§11b): a third door onto activity, next to activity/audit and the 360 tab. Hidden but NOT merged — it is a real screen over a real filter, so it keeps rendering for anyone who has the link or reaches it from the palette. Redirecting it would have deleted a working view to tidy a menu.";
          nav = some false;
        })
        ∷ [])

abbrev pub catalog_section : IaTree
catalog_section =
    branch (record (entry "catalog" (some "catalog") partial l1) { primary = some true })
      (leaf (record (entry "catalog.products" (some "catalog/products") wired l1) {
        endpoints =
            "GET /products" ∷ "POST /products" ∷ "GET /products/{id}" ∷ "PATCH /products/{id}" ∷ [];
      })
        ∷ leaf (record (entry "catalog.services" (some "catalog/services") partial l1) {
          endpoints = "GET /products" ∷ "GET /products?billing_type" ∷ [];
          missing = "a product/service discriminator" ∷ [];
          note =
              some
                "The filter shipped 2026-08-27 — ProductsPanel has a billing-type control and it queries the server. What is still missing is the CONCEPT: nothing on Product says service-or-good, and billing_type is not that discriminator (a fixed-price service and a fixed-price good are both `fixed`). So this stays partial, and picking one billing type to stand in for ‘a service’ would be the screen inventing a rule the domain does not have. Proposed §11b cut: merge into catalog/products.";
        })
        ∷ leaf (record (entry "catalog.categories" (some "catalog/categories") partial l2) {
          endpoints = "GET /products" ∷ [];
          missing = "Category model" ∷ "CRUD /categories" ∷ "GET /products?category" ∷ [];
          note =
              some
                "Product.category is a free-text string. Real categories need their own table so they can be renamed, coloured and reordered.";
        })
        ∷ leaf (record (entry "catalog.pricing" (some "catalog/pricing") partial l2) {
          endpoints = "GET /products" ∷ "PATCH /products/{id}" ∷ [];
          missing = "PriceList model" ∷ "client-specific pricing" ∷ "bulk price update" ∷ [];
        })
        ∷ leaf (record (entry "catalog.vat" (some "catalog/vat") partial l2) {
          endpoints = "GET /vat-rates" ∷ [];
          note =
              some
                "Frontend-only from here. GET /vat-rates now serves the Belgian rates and the EN 16931 categories from core/rules/vat.py. Until a screen consumes it, 21/12/6/0 stays duplicated in TypeScript.";
        })
        ∷ leaf (record (entry "catalog.templates" (some "catalog/templates") wired l2) {
          endpoints =
              "GET /templates" ∷ "POST /templates" ∷ "PATCH /templates/{id}"
              ∷ "POST /templates/{id}/publish" ∷ "POST /templates/{id}/default"
              ∷ "DELETE /templates/{id}" ∷ "GET /templates/{id}/snapshot" ∷ "GET /pdf-templates"
              ∷ [];
          note =
              some
                "Wired 2026-08-28: the visual designer, on real endpoints. Opens on five starter models, blocks are reordered by dragging, and appearance carries one brand colour plus six PDF-safe faces. Writes need pdf_templates_premium — Business and above — and answer 402 below it; reads are open on every tier so a downgraded org still sees what it built. Publishing freezes an immutable version and an issued invoice keeps its own template_snapshot, so editing a template never restyles a document already sent. GET /pdf-templates still lists the four fixed Jinja templates underneath.";
        })
        ∷ leaf (record (entry "catalog.archived" (some "catalog/archived") wired l2) {
          endpoints = "GET /products?status=archived" ∷ [];
          note =
              some
                "Wired 2026-08-27: the same ProductsPanel with the status filter preset, filtering on the SERVER. Not a second list — a preset view of the one list, with the control left visible so it is a starting point rather than a separate place with its own idea of what a product is.";
        })
        ∷ [])
