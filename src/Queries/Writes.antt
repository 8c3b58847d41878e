-- ===== src/Queries/Writes.antt =====
-- The mutations of frontend-react/src/hooks/queries.ts, and the query client that
-- frontend-react/src/providers/BillGenProvider.tsx builds where it is given none.
use billgen.Prelude.{String, Bool, List, [], ◌∷◌, ◌++◌, Option, none, some, any}
use billgen.Json.{Json}
use billgen.Client.Calls.Records.{
  rename_organization, update_me, create_company, update_company, create_client, update_client,
  export_client_data, erase_client_data, accept_legal_text, complete_onboarding, create_template,
  update_template, publish_template, set_default_template, delete_template, create_product,
  update_product,
}
use billgen.Client.Calls.Sales.{
  preview_invoice, create_invoice, issue_invoice, delete_invoice, duplicate_invoice, void_invoice,
  issue_credit_note, record_payment,
}
use billgen.Client.Calls.Backup.{
  preview_legacy_import, commit_legacy_import, export_backup, restore_backup,
}
use billgen.Client.Calls.Laws.{Endpoint}
use billgen.Queries.Keys.{Key, word}

-- A run of a mutation, with the variables that it is given.
pub data Mutation : Type 0 where
  use_create_company use_create_client use_create_product use_invoice_preview : Json → Mutation
  use_create_invoice use_issue_credit_note use_record_payment use_import_preview : Json → Mutation
  use_import_commit use_backup_restore use_update_me use_accept_legal_text : Json → Mutation
  use_create_template : Json → Mutation
  use_update_client use_update_product use_update_company use_update_template :
      String → Json → Mutation
  use_issue_invoice use_delete_invoice use_duplicate_invoice use_rename_organization :
      String → Mutation
  use_export_client_data use_erase_client_data use_publish_template : String → Mutation
  use_set_default_template use_delete_template use_sealed_backup_export : String → Mutation
  use_void_invoice : String → String → Mutation
  use_backup_export use_complete_onboarding : Mutation
  use_backup_restore_file : String → Option String → Mutation

-- The call of `mutationFn`; the two that go through `fetchWithAuth` have none of `request`.
abbrev pub mutation_call : Mutation → Option Endpoint
mutation_call (use_create_company body) = some (Endpoint.company (create_company body))
mutation_call (use_create_client body) = some (Endpoint.client (create_client body))
mutation_call (use_update_client id body) = some (Endpoint.client (update_client id body))
mutation_call (use_create_product body) = some (Endpoint.product (create_product body))
mutation_call (use_update_product id body) = some (Endpoint.product (update_product id body))
mutation_call (use_invoice_preview body) = some (Endpoint.invoice (preview_invoice body))
mutation_call (use_create_invoice body) = some (Endpoint.invoice (create_invoice body))
mutation_call (use_issue_invoice id) = some (Endpoint.invoice (issue_invoice id none))
mutation_call (use_delete_invoice id) = some (Endpoint.invoice (delete_invoice id))
mutation_call (use_duplicate_invoice id) = some (Endpoint.invoice (duplicate_invoice id))
mutation_call (use_void_invoice id reason) = some (Endpoint.invoice (void_invoice id reason))
mutation_call (use_issue_credit_note body) = some (Endpoint.credit_note (issue_credit_note body))
mutation_call (use_record_payment body) = some (Endpoint.payment (record_payment body))
mutation_call (use_import_preview backup) = some (Endpoint.backup (preview_legacy_import backup))
mutation_call (use_import_commit backup) = some (Endpoint.backup (commit_legacy_import backup))
mutation_call use_backup_export = some (Endpoint.backup export_backup)
mutation_call (use_sealed_backup_export passphrase) = none
mutation_call (use_backup_restore_file archive passphrase) = none
mutation_call (use_backup_restore backup) = some (Endpoint.backup (restore_backup backup))
mutation_call (use_update_company id body) = some (Endpoint.company (update_company id body))
mutation_call (use_update_me body) = some (Endpoint.account (update_me body))
mutation_call (use_rename_organization name) = some (Endpoint.account (rename_organization name))
mutation_call (use_export_client_data id) = some (Endpoint.client (export_client_data id))
mutation_call (use_erase_client_data id) = some (Endpoint.client (erase_client_data id))
mutation_call (use_accept_legal_text body) = some (Endpoint.client (accept_legal_text body))
mutation_call use_complete_onboarding = some (Endpoint.client complete_onboarding)
mutation_call (use_create_template body) = some (Endpoint.template (create_template body))
mutation_call (use_update_template id body) = some (Endpoint.template (update_template id body))
mutation_call (use_publish_template id) = some (Endpoint.template (publish_template id))
mutation_call (use_set_default_template id) = some (Endpoint.template (set_default_template id))
mutation_call (use_delete_template id) = some (Endpoint.template (delete_template id))

-- `{ queryKey: [name] }`
abbrev pub named : String → Key
named name = word name ∷ []

-- The keys that `onSuccess` invalidates. A call without a key invalidates whatever starts with no
-- part at all.
unfoldable pub invalidated : Mutation → List Key
invalidated (use_create_company body) = named "companies" ∷ named "onboarding" ∷ []
invalidated (use_create_client body) = named "clients" ∷ named "onboarding" ∷ []
invalidated (use_update_client id body) = named "clients" ∷ []
invalidated (use_create_product body) = named "products" ∷ named "onboarding" ∷ []
invalidated (use_update_product id body) = named "products" ∷ []
invalidated (use_invoice_preview body) = []
invalidated (use_create_invoice body) = named "invoices" ∷ named "reports" ∷ []
invalidated (use_issue_invoice id) = named "invoices" ∷ named "reports" ∷ named "activity" ∷ []
invalidated (use_delete_invoice id) = named "invoices" ∷ named "activity" ∷ []
invalidated (use_duplicate_invoice id) = named "invoices" ∷ named "activity" ∷ []
invalidated (use_void_invoice id reason) = named "invoices" ∷ named "reports" ∷ []
invalidated (use_issue_credit_note body) =
    named "credit-notes" ∷ named "invoices" ∷ named "reports" ∷ []
invalidated (use_record_payment body) = named "payments" ∷ named "invoices" ∷ named "reports" ∷ []
invalidated (use_import_preview backup) = []
invalidated (use_import_commit backup) =
    named "companies" ∷ named "clients" ∷ named "products" ∷ named "activity" ∷ []
invalidated use_backup_export = []
invalidated (use_sealed_backup_export passphrase) = []
invalidated (use_backup_restore_file archive passphrase) = [] ∷ []
invalidated (use_backup_restore backup) = [] ∷ []
invalidated (use_update_company id body) =
    named "companies" ∷ named "company-validation" ∷ named "activity" ∷ []
invalidated (use_update_me body) = named "onboarding" ∷ named "me" ∷ []
invalidated (use_rename_organization name) = named "onboarding" ∷ named "organization" ∷ []
invalidated (use_export_client_data id) = []
invalidated (use_erase_client_data id) =
    (word "clients" ∷ word "detail" ∷ word id ∷ []) ∷ named "activity" ∷ []
invalidated (use_accept_legal_text body) = named "onboarding" ∷ named "documents" ∷ []
invalidated use_complete_onboarding = named "onboarding" ∷ []
invalidated (use_create_template body) = named "templates" ∷ []
invalidated (use_update_template id body) = named "templates" ∷ []
invalidated (use_publish_template id) = named "templates" ∷ []
invalidated (use_set_default_template id) = named "templates" ∷ []
invalidated (use_delete_template id) = named "templates" ∷ []

-- What the cache of every mutation invalidates where one succeeds.
abbrev pub always_invalidated : List Key
always_invalidated = named "alerts" ∷ []

-- Whether a key of the cache is invalid once a mutation has succeeded, where `matches filter key` is
-- the test by which the cache applies a filter.
unfoldable pub is_stale : (Key → Key → Bool) → Mutation → Key → Bool
unfolding invalidated
is_stale matches m key = any (λ filter. matches filter key) (invalidated m ++ always_invalidated)
