-- ===== src/Scaffold/Spec.antt =====
-- The tree of frontend-react/src/scaffold/ia.ts as it is authored, section by section, and the paths of
-- the first release.
pub mod Node
pub mod Home
pub mod Sales
pub mod Records
pub mod Reports
pub mod Company
pub mod Legal
pub mod Settings
pub mod Machine
use billgen.Prelude.{String, List, [], ◌∷◌}
use billgen.Scaffold.Ia.{IaForest, with_labels}
use billgen.Scaffold.Spec.Node.{listed}
use billgen.Scaffold.Spec.Home.{dashboard_section, explore_section, activity_section}
use billgen.Scaffold.Spec.Sales.{sales_section}
use billgen.Scaffold.Spec.Records.{customers_section, catalog_section}
use billgen.Scaffold.Spec.Reports.{reports_section, billing_section}
use billgen.Scaffold.Spec.Company.{company_section, documents_section}
use billgen.Scaffold.Spec.Legal.{legal_section, help_section}
use billgen.Scaffold.Spec.Settings.{settings_section}
use billgen.Scaffold.Spec.Machine.{onboarding_section, desktop_section}

abbrev pub spec : IaForest
spec = listed (
    dashboard_section ∷ sales_section ∷ customers_section ∷ catalog_section ∷ reports_section
    ∷ company_section ∷ billing_section ∷ documents_section ∷ explore_section ∷ activity_section
    ∷ settings_section ∷ help_section ∷ legal_section ∷ onboarding_section ∷ desktop_section ∷ [])

abbrev pub ia : (String → String) → IaForest
ia nav_label = with_labels nav_label spec

abbrev pub mvp_surface : List String
mvp_surface =
    "sales/invoices" ∷ "sales/invoices/draft" ∷ "sales/invoices/issued" ∷ "sales/invoices/paid"
    ∷ "sales/invoices/partially_paid" ∷ "sales/invoices/overdue" ∷ "sales/invoices/voided"
    ∷ "sales/invoices/id/:invoiceId" ∷ "customers/clients" ∷ "customers/clients/:clientId"
    ∷ "catalog/products" ∷ "catalog/templates" ∷ "company/profile" ∷ "company/legal" ∷ "company/vat"
    ∷ "company/numbering" ∷ "billing/plan" ∷ "billing/usage" ∷ "settings/account"
    ∷ "settings/backup" ∷ "settings/appearance" ∷ "settings/privacy" ∷ "onboarding/wizard" ∷ []
