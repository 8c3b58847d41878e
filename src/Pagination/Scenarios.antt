-- ===== src/Pagination/Scenarios.antt =====
-- The theorem on the row of pages, and rows that are computed.
use billgen.Prelude.{true, [], ◌∷◌, ◌≡◌, refl, arith}
use billgen.Pagination.{number, gap_left, gap_right, page_entries}
use billgen.Pagination.Row.{IsRow, stands, page_entries-IsRow}

page_entries-IsRow_example :
    let row = page_entries 5 10 1 in
    IsRow row × (stands 1 row ≡ true) × (stands 10 row ≡ true) × (stands 5 row ≡ true)
page_entries-IsRow_example = page_entries-IsRow 5 10 1 (omega arith) (omega arith)

middle_test :
    page_entries 5 10 1
    ≡ number 1 ∷ gap_left ∷ number 4 ∷ number 5 ∷ number 6 ∷ gap_right ∷ number 10 ∷ []
unfolding page_entries
middle_test = refl

hidden_page_test :
    page_entries 4 10 1
    ≡ number 1 ∷ number 2 ∷ number 3 ∷ number 4 ∷ number 5 ∷ gap_right ∷ number 10 ∷ []
unfolding page_entries
hidden_page_test = refl

-- Without siblings both gaps are the same entry.
no_siblings_test :
    page_entries 5 10 0 ≡ number 1 ∷ gap_right ∷ number 5 ∷ gap_right ∷ number 10 ∷ []
unfolding page_entries
no_siblings_test = refl
