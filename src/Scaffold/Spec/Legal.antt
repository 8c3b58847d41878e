-- ===== src/Scaffold/Spec/Legal.antt =====
-- frontend-react/src/scaffold/ia.ts, SPEC: the sections legal, help.
use billgen.Prelude.{[], ◌∷◌, some}
use billgen.Scaffold.Ia.{IaTree, partial, unbuilt, l2, l3, l4, l5}
use billgen.Scaffold.Spec.Node.{entry, leaf, branch}

abbrev pub legal_section : IaTree
legal_section =
    branch
      (record (entry "legal" (some "legal") partial l4) {
        endpoints = "GET /trust/legal/documents" ∷ [];
        missing = "the text of all seven documents" ∷ [];
        note =
            some
              "BillGen's own legal framework — distinct from customer contracts below. The registry is built (core/trust/legal.py, served publicly so the marketing site and the app read one source); every document in it is undrafted. That split is the point: engineering owns the ledger, a lawyer owns the prose, and the endpoint reports which paragraphs are outstanding.";
      })
      (leaf (record (entry "legal.tos" (some "legal/terms") partial l4) {
        endpoints = "GET /trust/legal/documents/terms" ∷ [];
        missing = "drafted document" ∷ "version + acceptance record per user" ∷ [];
        note =
            some
              "A term nobody can prove was shown is a term you do not have — the acceptance record is not optional polish.";
      })
        ∷ leaf (record (entry "legal.privacy" (some "legal/privacy") partial l4) {
          endpoints = "GET /trust/legal/documents/privacy" ∷ "GET /trust/privacy/register" ∷ [];
          missing = "drafted document" ∷ [];
          note =
              some
                "Must agree with the art. 30 register field for field. The register is data, so the drafting has a source rather than a memory.";
        })
        ∷ leaf (record (entry "legal.cookies" (some "legal/cookies") partial l4) {
          endpoints = "GET /trust/legal/documents/cookies" ∷ "GET /trust/consent/categories" ∷ [];
          missing = "drafted document" ∷ [];
        })
        ∷ leaf (record (entry "legal.dpa" (some "legal/dpa") partial l4) {
          endpoints = "GET /trust/legal/documents/dpa" ∷ [];
          missing = "drafted DPA" ∷ "countersignature flow" ∷ [];
          note =
              some
                "Required before any Belgian business customer's own DPO signs off. BillGen is the processor: the customer's clients' names and addresses are on every invoice.";
        })
        ∷ leaf (record (entry "legal.subprocessors" (some "legal/subprocessors") partial l4) {
          endpoints = "GET /trust/subprocessors" ∷ [];
          missing = "change notification" ∷ "verification against signed contracts" ∷ [];
          note =
              some
                "Served with an `in_use` flag so a planned provider is never published as a current one. The list in core/trust is assembled from what the repo shows and must be checked against contracts before it is published.";
        })
        ∷ leaf (record (entry "legal.ai" (some "legal/ai-transparency") partial l4) {
          endpoints = "GET /trust/ai-transparency" ∷ [];
          missing = "the marker itself, rendered beside every machine-made value" ∷ [];
          note =
              some
                "AI-generated output must be identifiable as such — and the duty has been live since 2026-08-02, not 2026-12-02 as this once said. December is the end of a grace period for systems already on the market when the obligation applied; BillGen was not, so it never had one (ADR-0005). One derived date, in core/trust/ai_transparency.py. Nearly free now (the TVA surfaces already carry confidence and wait for a human to confirm) and expensive to retrofit across every AI surface later. Annex III — creditworthiness scoring of a natural person — is the boundary to stay behind: education, never assessment.";
        })
        ∷ leaf (record (entry "legal.sla" (some "legal/sla") partial l4) {
          endpoints = "GET /trust/legal/documents/sla" ∷ [];
          missing = "drafted SLA" ∷ "uptime measurement to back it" ∷ [];
          note =
              some
                "Do not draft before uptime is measured. /healthz answers a request; it does not accumulate availability.";
        })
        ∷ leaf (record (entry "legal.notices" (some "legal/notices") partial l4) {
          endpoints = "GET /trust/legal/documents/notices" ∷ [];
          missing = "legal entity, company number, registered address" ∷ [];
          note =
              some
                "Belgian law requires these on the site itself. The cheapest of the seven and the only one already overdue — the pre-sale site is live.";
        })
        ∷ leaf (record (entry "legal.contracts" (some "legal/contracts") unbuilt l2) {
          missing =
              "Contract model (active/expiring/expired/templates/archived)" ∷ "CRUD /contracts"
              ∷ [];
          note = some "This one is a product feature, not BillGen's own paperwork.";
        })
        ∷ [])

abbrev pub help_section : IaTree
help_section = branch (entry "help" (some "help") partial l3) (
    leaf (record (entry "help.center" (some "help/center") unbuilt l3) {
      missing = "content source (CMS or bundled MDX)" ∷ [];
    })
    ∷ leaf (record (entry "help.getting-started" (some "help/getting-started") unbuilt l3) {
      missing = "checklist progress persisted per org" ∷ [];
    })
    ∷ leaf (record (entry "help.tutorials" (some "help/tutorials") unbuilt l3) {
      missing = "content source" ∷ [];
    })
    ∷ leaf
        (record (entry "help.faq" (some "help/faq") unbuilt l3) { missing = "content source" ∷ [] })
    ∷ leaf (record (entry "help.contact" (some "help/contact") unbuilt l3) {
      missing = "POST /support/tickets" ∷ "email transport" ∷ "support inbox" ∷ [];
    })
    ∷ leaf (record (entry "help.status" (some "help/status") partial l5) {
      endpoints = "GET /healthz" ∷ "GET /readyz" ∷ [];
      missing =
          "per-subsystem health (PDF engine, Peppol, email, payments)" ∷ "incident history" ∷ [];
      note =
          some
            "Liveness and readiness are real. /readyz already knows whether the PDF engine is available, which is the one honest per-subsystem signal available today.";
    })
    ∷ leaf (record (entry "help.whatsnew" (some "help/whats-new") unbuilt l3) {
      missing = "changelog source" ∷ "seen/unseen state per user" ∷ [];
    })
    ∷ [])
