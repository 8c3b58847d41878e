-- ===== src/Scaffold/Spec/Company.antt =====
-- frontend-react/src/scaffold/ia.ts, SPEC: the sections company, documents.
use billgen.Prelude.{false, [], ◌∷◌, some}
use billgen.Scaffold.Ia.{IaTree, wired, partial, unbuilt, l1, l2, l4}
use billgen.Scaffold.Spec.Node.{entry, leaf, branch}

abbrev pub company_section : IaTree
company_section =
    branch
      (record (entry "company" (some "company") partial l1) {
        note =
            some
              "Nine nodes over ONE row. Every child is `nav: false` (ROADMAP_IA §11b, curated 2026-08-27): a company is a single record, so none of these is a place you go before you know which record you want — you are already in the only one there is. CompanySettingsPanel renders the six wired sections at `company`, and the three that block on a model (payment terms, branding, documents) are scaffold blocks inside it. The nodes stay because they are the ledger of what is still missing.";
      })
      (leaf (record (entry "company.profile" (some "company/profile") wired l1) {
        endpoints =
            "GET /companies" ∷ "POST /companies" ∷ "GET /companies/{id}" ∷ "PATCH /companies/{id}"
            ∷ [];
        note =
            some
              "Wired 2026-08-27: CompanySettingsPanel edits the record over PATCH /companies/{id}, sending only the fields that changed. logo_key is the one field no screen writes, and it waits on blob storage (B2).";
        nav = some false;
        merged_into = some "company";
      })
        ∷ leaf (record (entry "company.legal" (some "company/legal") wired l1) {
          endpoints = "POST /companies" ∷ "PATCH /companies/{id}" ∷ [];
          note =
              some
                "Wired 2026-08-27: legal_name and registration_number are edited by CompanySettingsPanel section=\"legal\".";
          nav = some false;
          merged_into = some "company";
        })
        ∷ leaf (record (entry "company.vat" (some "company/vat") wired l1) {
          endpoints = "POST /companies" ∷ "PATCH /companies/{id}" ∷ [];
          note =
              some
                "Wired 2026-08-27: the VAT number is editable and GET /companies/{id}/validate returns the checksum verdict, which the form renders on the field itself. The verdict describes the SAVED value, so an edited field drops it until saved.";
          nav = some false;
          merged_into = some "company";
        })
        ∷ leaf (record (entry "company.bank" (some "company/bank") partial l1) {
          endpoints = "POST /companies" ∷ "PATCH /companies/{id}" ∷ [];
          missing = "BankAccount model (many per company)" ∷ [];
          note =
              some
                "Wired 2026-08-27: the one IBAN/BIC pair is editable and validated per field. A second bank account still needs a model.";
          nav = some false;
          merged_into = some "company";
        })
        ∷ leaf (record (entry "company.numbering" (some "company/numbering") wired l1) {
          endpoints = "POST /companies" ∷ "PATCH /companies/{id}" ∷ "GET /sequences" ∷ [];
          note =
              some
                "Wired 2026-08-27, completed 2026-08-28. The prefix is editable and GET /sequences reports every series with its current and next value. The earlier note here said the counter was \"not readable\" — it always was: sequence_repo.snapshot has existed since ADR-0003 for backups, and only the HTTP surface was missing.";
          nav = some false;
          merged_into = some "company";
        })
        ∷ leaf (record (entry "company.payment-terms" (some "company/payment-terms") unbuilt l2) {
          missing = "payment_terms_days on Company" ∷ "late-fee configuration" ∷ [];
          nav = some false;
          merged_into = some "company";
        })
        ∷ leaf (record (entry "company.branding" (some "company/branding") unbuilt l2) {
          missing = "POST /companies/{id}/logo" ∷ "blob storage" ∷ "brand colour fields" ∷ [];
          note =
              some "Company.logo_key is a dangling reference — nothing uploads or serves a logo.";
          nav = some false;
          merged_into = some "company";
        })
        ∷ leaf (record (entry "company.defaults" (some "company/defaults") partial l2) {
          endpoints = "POST /companies" ∷ "PATCH /companies/{id}" ∷ "GET /pdf-templates" ∷ [];
          missing = "default notes / payment instructions fields" ∷ [];
          note =
              some
                "Wired 2026-08-27: currency, language and template are editable, and the template picker is populated from GET /pdf-templates rather than a constant. Notes and payment instructions do not exist on the model.";
          nav = some false;
          merged_into = some "company";
        })
        ∷ leaf (record (entry "company.documents" (some "company/documents") unbuilt l2) {
          missing = "blob storage" ∷ "Document model" ∷ [];
          nav = some false;
          merged_into = some "company";
        })
        ∷ [])

abbrev pub documents_section : IaTree
documents_section =
    branch
      (record (entry "documents" (some "documents") unbuilt l2) {
        note = some "No blob storage exists anywhere in the stack.";
      })
      (leaf (record (entry "documents.all" (some "documents/all") unbuilt l2) {
        missing = "Document model" ∷ "object storage (S3/disk)" ∷ "GET /documents" ∷ [];
      })
        ∷ leaf (record (entry "documents.folders" (some "documents/folders") unbuilt l2) {
          missing = "Folder model or path metadata" ∷ [];
        })
        ∷ leaf
            (record (entry "documents.invoice-attachments" (some "documents/invoice-attachments")
              unbuilt l2) { missing = "POST /invoices/{id}/attachments" ∷ [] })
        ∷ leaf (record (entry "documents.client" (some "documents/client") unbuilt l2) {
          missing = "POST /clients/{id}/documents" ∷ [];
        })
        ∷ leaf (record (entry "documents.company" (some "documents/company") unbuilt l2) {
          missing = "POST /companies/{id}/documents" ∷ [];
        })
        ∷ leaf (record (entry "documents.archived" (some "documents/archived") unbuilt l2) {
          missing = "archived flag on Document" ∷ [];
        })
        ∷ leaf (record (entry "documents.trash" (some "documents/trash") unbuilt l4) {
          missing = "soft delete + retention window" ∷ [];
          note = some "Ties into GDPR retention — see Privacy.";
        })
        ∷ [])
