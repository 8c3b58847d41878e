-- ===== src/Scaffold/Spec/Settings.antt =====
-- frontend-react/src/scaffold/ia.ts, SPEC: the section settings.
use billgen.Prelude.{List, [], ◌∷◌, some}
use billgen.Scaffold.Ia.{IaTree, wired, partial, unbuilt, l1, l3, l4, l5, l6}
use billgen.Scaffold.Spec.Node.{entry, leaf, branch}

abbrev pub settings_data : List IaTree
settings_data =
    leaf (record (entry "settings.import" (some "settings/import") partial l5) {
      endpoints = "POST /imports/legacy/preview" ∷ "POST /imports/legacy/commit" ∷ [];
      missing = "CSV / Excel / UBL importers" ∷ "column-mapping endpoint" ∷ [];
      note =
          some
            "Only the FinanceFlow BillGen legacy backup format is understood. Generic CSV mapping is unbuilt.";
    })
    ∷ leaf (record (entry "settings.export" (some "settings/export") partial l5) {
      endpoints = "GET /backup/export" ∷ [];
      missing = "per-entity selection" ∷ "CSV / ZIP / PDF formats" ∷ [];
      note = some "One button, one format (whole-org JSON).";
    })
    ∷ leaf (record (entry "settings.backup" (some "settings/backup") wired l5) {
      endpoints = "GET /backup/export" ∷ "POST /backup/restore" ∷ [];
    })
    ∷ leaf (record (entry "settings.api" (some "settings/api") unbuilt l5) {
      missing = "ApiKey model" ∷ "CRUD /api-keys" ∷ "webhook delivery + retries" ∷ [];
    })
    ∷ leaf (record (entry "settings.localization" (some "settings/localization") partial l6) {
      endpoints = "POST /companies (default_language)" ∷ "PATCH /companies/{id}" ∷ [];
      missing = "per-user language" ∷ "timezone" ∷ "number/date format" ∷ [];
      note =
          some
            "Language is editable on the company since B3 closed, but it is still company-wide: there is no user-level preference.";
    })
    ∷ leaf (record (entry "settings.appearance" (some "settings/appearance") wired l6) {
      note =
          some
            "Theme (light / dark / system), density, text size, reduced motion and translucency — all client-side preferences persisted pre-paint (lib/preferences.ts), which correctly need no endpoint.";
    })
    ∷ leaf (record (entry "settings.advanced" (some "settings/advanced") unbuilt l5) {
      missing = "feature flags" ∷ "danger-zone operations" ∷ "diagnostics dump" ∷ [];
    })
    ∷ []

abbrev pub settings_section : IaTree
settings_section = branch (entry "settings" (some "settings") partial l1) (
    leaf (record (entry "settings.account" (some "settings/account") partial l3) {
      endpoints = "GET /users/me" ∷ "PATCH /users/me" ∷ "PATCH /orgs/current" ∷ [];
      missing = "email change + re-verification" ∷ [];
      note =
          some
            "Name, business name and interface language are editable (AccountPanel, 2026-09-13) — the same two calls the first run's profile step makes. The e-mail stays read-only: changing it needs a verification message the product cannot send (B1), and on a desktop install it is the bootstrap's lookup key.";
    })
    ∷ leaf (record (entry "settings.team" (some "settings/team") unbuilt l3) {
      missing =
          "GET/POST /orgs/current/members" ∷ "role model (owner/admin/accountant/employee/viewer)"
          ∷ "invitation flow" ∷ [];
      note =
          some
            "Partly wired 2026-08-28. GET /orgs/current/members lists the organization with the role each person holds, and PATCH sets a role (company.write, and refuses your own — the last owner demoting themselves strands the organization). The earlier note said OrgMembership \"carries no role enum\"; it does, and has since the initial schema, with a four-role matrix in api/authz. What is genuinely missing is the invitation, which needs email (B1).";
    })
    ∷ leaf (record (entry "settings.security" (some "settings/security") partial l4) {
      endpoints =
          "GET /users/me/sessions" ∷ "DELETE /users/me/sessions/{jti}" ∷ "POST /users/me/password"
          ∷ [];
      missing = "TOTP enrolment" ∷ "login history" ∷ [];
      note =
          some
            "Backend-ready except 2FA: the session list shows only live sign-ins, a password change revokes the others, and login history has a source after all — auth_service writes login, logout, session.revoke and password.change. A security score may only count checks that are really performed.";
    })
    ∷ leaf (record (entry "settings.notifications" (some "settings/notifications") unbuilt l3) {
      missing = "NotificationPreference model" ∷ "per-channel toggles" ∷ [];
    })
    ∷ leaf (record (entry "settings.email" (some "settings/email") unbuilt l3) {
      missing = "SMTP/provider config" ∷ "email templates" ∷ "POST /email/test" ∷ [];
      note =
          some
            "There is no email transport anywhere in the stack — this blocks reminders, invitations, verification and password reset.";
    })
    ∷ leaf (record (entry "settings.integrations" (some "settings/integrations") partial l5) {
      endpoints = "GET /invoices/{id}/peppol.xml" ∷ [];
      missing =
          "Peppol Access Point transport" ∷ "banking (CODA/PSD2)" ∷ "accounting export"
          ∷ "Google Drive / Dropbox" ∷ "GET/POST /webhooks" ∷ [];
      note =
          some
            "Peppol produces validated BIS 3.0 XML but nothing transmits it — the file is downloaded by hand.";
    })
    ∷ leaf (record (entry "settings.privacy" (some "settings/privacy") partial l4) {
      endpoints =
          "GET /onboarding" ∷ "GET /trust/privacy/register" ∷ "GET /trust/legal/documents"
          ∷ "POST /onboarding/acceptances" ∷ "GET /backup/passphrase-notice" ∷ [];
      missing =
          "POST /privacy/export (structured GDPR export)" ∷ "POST /privacy/delete-account"
          ∷ "an opener for the data folder (Tauri plugin)" ∷ [];
      note =
          some
            "Built 2026-09-13 as T-29's permanent half (DataPrivacyPanel): the resolved data directory and what each folder holds, the art. 30 register with retention, what an erasure keeps, the subprocessors, the legal texts with their acceptance state, and the way to the backups. What is still missing is the two actions: /backup/export is an org backup, not a subject-access export, and there is no deletion workflow. The deletion dialog must show the register's `retained_on_erasure` — invoices and client contacts are frozen for seven years, so \"delete everything\" would be a false promise.";
    })
    ∷ leaf (record (entry "settings.cookies" (some "settings/cookies") partial l4) {
      endpoints = "GET /trust/consent/categories" ∷ [];
      missing = "consent storage (no table)" ∷ "POST /trust/consent" ∷ "the banner itself" ∷ [];
      note =
          some
            "The four categories and their defaults are served; essential is locked on and nothing else may be pre-ticked. Three of the four have nothing running in them, which is the only reason no banner ships yet — the day one analytics script is added this becomes a live gap.";
    })
    ∷ settings_data)
