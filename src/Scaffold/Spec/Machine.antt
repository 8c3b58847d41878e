-- ===== src/Scaffold/Spec/Machine.antt =====
-- frontend-react/src/scaffold/ia.ts, SPEC: the sections onboarding, desktop.
use billgen.Prelude.{false, [], ◌∷◌, some}
use billgen.Scaffold.Ia.{IaTree, wired, partial, unbuilt, l3, l5, desktop}
use billgen.Scaffold.Spec.Node.{entry, leaf, branch}

abbrev pub onboarding_section : IaTree
onboarding_section = branch (entry "onboarding" (some "onboarding") partial l3) (
    leaf (record (entry "onboarding.wizard" (some "onboarding/wizard") wired l3) {
      endpoints =
          "GET /onboarding" ∷ "POST /onboarding/acceptances" ∷ "POST /onboarding/complete"
          ∷ "POST /companies" ∷ "POST /clients" ∷ "POST /products" ∷ [];
      note =
          some
            "The guided first run (T-29, 2026-09-11): language & look, the company (gated on GET /companies/{id}/validation's rules), the published legal texts to accept, a first client and service, the first invoice. State is the server's — GET /onboarding is derived on every call and POST /onboarding/complete refuses while a blocker stands — so it resumes wherever it was left. Shown by FirstRunGate until completed_at is set. Not in the nav: it is reached by not having finished it. Left out of this cut and named: feature toggles (no organization.modules model), logo upload (B2), sample-invoice extraction (no AI surface).";
      nav = some false;
    })
    ∷ [])

abbrev pub desktop_section : IaTree
desktop_section =
    branch
      (record (entry "desktop" (some "desktop") partial l5) {
        note =
            some "Desktop-only surface: requires the Tauri shell. Excluded from the SaaS router.";
        surface = some desktop;
      })
      (leaf (record (entry "desktop.connection" (some "desktop/connection") partial l5) {
        endpoints = "GET /healthz" ∷ [];
        missing = "sync queue" ∷ "last-sync timestamp" ∷ [];
        note =
            some
              "The desktop build runs its own local SQLite, so 'offline' is currently the only mode — there is nothing to sync with.";
      })
        ∷ leaf (record (entry "desktop.offline" (some "desktop/offline") unbuilt l5) {
          missing = "sync protocol" ∷ "conflict resolution" ∷ "outbox" ∷ [];
        })
        ∷ leaf (record (entry "desktop.backup" (some "desktop/backup") partial l5) {
          endpoints = "GET /backup/export" ∷ [];
          missing = "scheduler" ∷ "backup folder preference" ∷ "retention" ∷ [];
        })
        ∷ leaf (record (entry "desktop.printing" (some "desktop/printing") partial l5) {
          endpoints = "GET /invoices/{id}/pdf" ∷ [];
          missing =
              "default printer preference" ∷ "download folder preference" ∷ "direct print" ∷ [];
        })
        ∷ leaf (record (entry "desktop.updates" (some "desktop/updates") unbuilt l5) {
          missing = "Tauri updater endpoint" ∷ "signing key" ∷ "crash reporter" ∷ [];
          note = some "Blocked on EV code-signing (Phase 12).";
        })
        ∷ [])
