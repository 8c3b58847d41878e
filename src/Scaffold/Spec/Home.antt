-- ===== src/Scaffold/Spec/Home.antt =====
-- frontend-react/src/scaffold/ia.ts, SPEC: the sections dashboard, explore, activity.
use billgen.Prelude.{true, [], ◌∷◌, none, some}
use billgen.Scaffold.Ia.{IaTree, wired, partial, unbuilt, l1, l2, l3, l4, l6}
use billgen.Scaffold.Spec.Node.{entry, leaf, branch}

abbrev pub dashboard_section : IaTree
dashboard_section =
    branch
      (record (entry "dashboard" (some "") partial l1) {
        primary = some true;
        note = some "KPIs and revenue are real; alerts have no source.";
      })
      (leaf (record (entry "dashboard.overview" none wired l1) {
        endpoints = "GET /reports/kpi" ∷ [];
      })
        ∷ leaf (record (entry "dashboard.revenue" none wired l1) {
          endpoints = "GET /reports/revenue" ∷ [];
        })
        ∷ leaf (record (entry "dashboard.outstanding" none wired l1) {
          endpoints = "GET /reports/kpi" ∷ [];
        })
        ∷ leaf (record (entry "dashboard.overdue" none wired l1) {
          endpoints = "GET /reports/kpi" ∷ "GET /invoices?status=overdue" ∷ [];
        })
        ∷ leaf (record (entry "dashboard.activity" none wired l1) {
          endpoints = "GET /activity?limit" ∷ [];
        })
        ∷ leaf (record (entry "dashboard.quickactions" none wired l1) {
          note = some "Pure client-side navigation — needs no endpoint.";
        })
        ∷ leaf (record (entry "dashboard.alerts" none wired l2) {
          endpoints = "GET /alerts?company_id&today&limit" ∷ [];
          note =
              some
                "The rules engine landed 2026-08-28: overdue invoices (a partial payment leaves only the remainder), forgotten drafts, business clients with no VAT number, and the company's own identifiers — each a code plus a context dict, severity-ranked, with counts covering everything that fired while the list is capped. Consumed since 2026-09-15 by AlertsPanel on the dashboard and by the top bar's bell. Off the beta surface by `alertsOffered` — §MVP's line, not a missing screen.";
        })
        ∷ [])

abbrev pub explore_section : IaTree
explore_section =
    branch
      (record (entry "explore" (some "explore") unbuilt l6) {
        note =
            some "Named 'Explore' rather than 'Research' — it is the app's internal search engine.";
      })
      (leaf (record (entry "explore.search" (some "explore/search") unbuilt l6) {
        endpoints = "GET /search?q&limit" ∷ [];
        note =
            some
              "The endpoint landed 2026-08-28: invoices, quotes and credit notes by reference, clients by name/email/VAT, products by name/category — capped per kind, with `truncated` when a kind hit its cap. The ⌘K palette still only navigates between pages; wiring it to this is the remaining work, and it is frontend work.";
      })
        ∷ leaf (record (entry "explore.filters" (some "explore/filters") partial l6) {
          endpoints = "GET /invoices?company_id&status" ∷ [];
          missing = "date/amount/client/created-by filters on every list endpoint" ∷ [];
        })
        ∷ leaf (record (entry "explore.saved" (some "explore/saved") unbuilt l6) {
          missing = "SavedSearch model" ∷ "CRUD /saved-searches" ∷ [];
        })
        ∷ leaf (record (entry "explore.documents" (some "explore/documents") unbuilt l6) {
          missing = "full-text index over document contents" ∷ [];
        })
        ∷ leaf (record (entry "explore.activity" (some "explore/activity") partial l6) {
          endpoints = "GET /activity?target_type" ∷ [];
          missing = "free-text and date-range search over the audit log" ∷ [];
        })
        ∷ [])

abbrev pub activity_section : IaTree
activity_section = branch (entry "activity" (some "activity") partial l1) (
    leaf (record (entry "activity.notifications" (some "activity/notifications") unbuilt l3) {
      missing =
          "Notification model" ∷ "GET /notifications" ∷ "read/unread state" ∷ "push or SSE" ∷ [];
      note =
          some
            "The NotificationCenter component exists in the design system and has never had a data source.";
    })
    ∷ leaf (record (entry "activity.audit" (some "activity/audit") wired l1) {
      endpoints = "GET /activity?limit&target_type" ∷ [];
    })
    ∷ leaf (record (entry "activity.user" (some "activity/user") wired l4) {
      endpoints = "GET /activity?actor_user_id" ∷ [];
      note =
          some
            "Closed 2026-08-28. The note that said entries \"cannot be filtered by an actor\" was stale — the filter exists and runs in SQL.";
    })
    ∷ leaf (record (entry "activity.security" (some "activity/security") wired l4) {
      endpoints = "GET /activity/security" ∷ [];
      missing = "a producer for AuditAction.error (failed sign-ins)" ∷ [];
      note =
          some
            "A filter over the audit log rather than a second table, so the endpoint was cheap. Sign-ins, sign-outs, session revocations and password changes are all recorded. The screen must still render the response's `not_recorded` list: nothing writes a *failed* sign-in, so repeated password guessing leaves no trace, and an empty row must never read as calm.";
    })
    ∷ leaf (record (entry "activity.system" (some "activity/system") unbuilt l4) {
      missing = "GET /system/events" ∷ "a job runner to produce them" ∷ [];
      note =
          some
            "Distinct from security events: this is the app talking about itself (migrations, scheduled jobs, failed deliveries). Nothing runs on a schedule yet, so there is nothing to report.";
    })
    ∷ [])
