-- ===== src/History/Pages.antt =====
-- The rows of the table of frontend-react/src/panels/HistoryPanel.tsx: their order and their pages. The
-- platform's comparison of two values and its sort are parameters.
use billgen.Prelude.{
  ℕ, zero, suc, ◌+◌, ◌-◌, ◌*◌, ◌/◌, max, String, Bool, true, false, List, [], ◌∷◌, ◌++◌, Option,
  none, some, ◌===◌, if◌then◌else◌, length,
}
use billgen.History.{InvoiceRow, Direction, asc, desc, TableSort}

abbrev pub page_size : ℕ
page_size = 25

-- A value that rows are ordered by: a text, or the number of an amount.
pub data SortValue : Type 0 where
  by_text by_number : String → SortValue

pub record Client : Type 0 where
  pub id : String
  pub name : String

-- The name of an invoice's client, in the index of the company's clients; a later one with the same
-- id replaces an earlier one.
abbrev pub last_name : String → List Client → Option String → Option String
last_name id [] found = found
last_name id (c ∷ cs) found = last_name id cs (if c.id === id then some c.name else found)

abbrev pub client_name : List Client → String → String
client_name clients id = elim (last_name id clients none) [ none ↦ "—" | some name ↦ name ]

abbrev pub text_or : String → Option String → String
text_or other none = other
text_or other (some v) = v

unfoldable pub pick : List Client → String → InvoiceRow → SortValue
pick clients key row =
    if key === "reference"
    then by_text (text_or "" row.reference)
    else if key === "client"
    then by_text (client_name clients row.client_id)
    else if key === "due_date"
    then by_text (text_or "9999-12-31" row.due_date)
    else if key === "total_ttc"
    then by_number row.total_ttc
    else if key === "status"
    then by_text row.status
    else by_text row.issue_date

-- What the comparison of a sort answers.
pub data Sign : Type 0 where
  before same after : Sign

-- `===` and `<` of two values.
pub record Values : Type 0 where
  pub same_value : SortValue → SortValue → Bool
  pub less_value : SortValue → SortValue → Bool

abbrev pub signed : Direction → Bool → Sign
signed asc less = if less then before else after
signed desc less = if less then after else before

module _ (values : Values)
    (sort : (InvoiceRow → InvoiceRow → Sign) → List InvoiceRow → List InvoiceRow) where
  abbrev pub compare_rows : List Client → TableSort → InvoiceRow → InvoiceRow → Sign
  compare_rows clients by a b =
      let left = pick clients by.key a in
      let right = pick clients by.key b in
      if values.same_value left right
      then same
      else signed by.direction (values.less_value left right)

  unfoldable pub sorted : List Client → TableSort → List InvoiceRow → List InvoiceRow
  sorted clients by invoices = sort (compare_rows clients by) invoices

module _ {ℓ} {A : Type ℓ} where
  abbrev pub take : ℕ → List A → List A
  take n [] = []
  take zero (x ∷ xs) = []
  take (suc n) (x ∷ xs) = x ∷ take n xs

  abbrev pub drop : ℕ → List A → List A
  drop n [] = []
  drop zero (x ∷ xs) = x ∷ xs
  drop (suc n) (x ∷ xs) = drop n xs

  abbrev pub slice : ℕ → ℕ → List A → List A
  slice from to xs = take (to - from) (drop from xs)

  unfoldable pub page_count : List A → ℕ
  page_count rows = max 1 ((length rows + (page_size - 1)) / page_size)

  -- The rows of a page; pages are counted from one.
  unfoldable pub visible : ℕ → List A → List A
  visible page rows = slice ((page - 1) * page_size) (page * page_size) rows

  -- The rows of the pages up to one.
  abbrev pub up_to : ℕ → List A → List A
  up_to zero rows = []
  up_to (suc n) rows = up_to n rows ++ visible (suc n) rows

  abbrev pub has_row : List A → Bool
  has_row [] = false
  has_row (x ∷ xs) = true
