-- ===== src/Queries/Scenarios.antt =====
-- The theorems on the queries, on the products of one company and a recorded payment.
use billgen.Prelude.{none, some, ◌≡◌, refl}
use billgen.Client.Calls.Build.{Platform}
use billgen.Client.Calls.Records.{ProductFilter, of_company, filtered}
use billgen.Client.Calls.Sales.{InvoiceFilter}
use billgen.Client.Calls.Reports.{ActivityFilter}
use billgen.Client.Calls.Laws.{plan}
use billgen.Queries.Reads.{use_products, query_key, query_call}
use billgen.Queries.Reads.Coherent.{query_key-plan}

abbrev platform : Platform
platform = record { encode = λ pairs. "pairs"; decimal = λ n. "number" }

abbrev of_one : ProductFilter
of_one = record { company_id = some "acme"; status = none; billing_type = none }

abbrev any_invoice : InvoiceFilter
any_invoice = record { company_id = none; status = none; client_id = none }

abbrev any_entry : ActivityFilter
any_entry = record { limit = none; target_type = none; target_id = none }

query_key-plan_example :
    plan platform (query_call (use_products (of_company "acme")))
    ≡ plan platform (query_call (use_products (filtered of_one)))
unfolding query_key
query_key-plan_example =
    query_key-plan platform (use_products (of_company "acme")) (use_products (filtered of_one))
      (refl, refl, refl) (refl, refl, refl) refl
