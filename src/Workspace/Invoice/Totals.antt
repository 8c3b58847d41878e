-- ===== src/Workspace/Invoice/Totals.antt =====
-- frontend-react/src/workspace/totals.ts. The platform's numbers are the parameter Doubles, about
-- which nothing is assumed (their sums are not associative), and so is `Array.prototype.sort`.
pub mod Groups
use billgen.Prelude.{
  String, Bool, true, false, List, [], ◌∷◌, Option, none, some, ◌===◌, if◌then◌else◌,
}
use billgen.Workspace.Invoice.Draft.{DraftLine}

pub record Doubles (D : Type 0) : Type 0 where
  pub nought : D
  pub one : D
  pub hundred : D
  pub plus : D → D → D
  pub minus : D → D → D
  pub times : D → D → D
  pub over : D → D → D
  -- `x === 0`
  pub is_nought : D → Bool
  -- `Number(value.replace(",", "."))`
  pub parse : String → D
  pub is_finite : D → Bool

pub record VatSummaryRow (D : Type 0) : Type 0 where
  pub rate : String
  pub base : D
  pub vat : D

pub record DraftTotals (D : Type 0) : Type 0 where
  pub subtotal : D
  pub discount : D
  pub vat : D
  pub total : D
  pub vat_summary : List (VatSummaryRow D)

module _ {D : Type 0} (m : Doubles D) where
  abbrev finite : D → D
  finite x = if m.is_finite x then x else m.nought

  abbrev pub num : Option String → D
  num none = m.nought
  num (some value) = if value === "" then m.nought else finite (m.parse value)

  abbrev pub line_gross : DraftLine → D
  line_gross line = m.times (num (some line.quantity)) (num (some line.unit_price))

  unfoldable pub line_subtotal : DraftLine → D
  line_subtotal line =
      let gross = line_gross line in
      let discount = m.times gross (m.over (num line.discount_percent) m.hundred) in
      m.minus gross discount

  -- The sum of a value of the lines, from the first line on.
  abbrev pub sum : (DraftLine → D) → D → List DraftLine → D
  sum value acc [] = acc
  sum value acc (line ∷ lines) = sum value (m.plus acc (value line)) lines

  -- `line.vatRate || "0"`.
  abbrev pub rate_of : DraftLine → String
  rate_of line = if line.vat_rate === "" then "0" else line.vat_rate

  -- A line's VAT base under the factor of the invoice's discount, and its VAT.
  unfoldable pub base_of : D → DraftLine → D
  base_of factor line = m.times (line_subtotal line) factor

  unfoldable pub vat_of : D → DraftLine → D
  vat_of factor line = m.times (base_of factor line) (m.over (num (some (rate_of line))) m.hundred)

  -- `byRate`, in the order of insertion: the row of the rate, or a new one, grows.
  unfoldable pub collect : String → D → D → List (VatSummaryRow D) → List (VatSummaryRow D)
  collect rate base vat [] =
      record { rate = rate; base = m.plus m.nought base; vat = m.plus m.nought vat } ∷ []
  collect rate base vat (row ∷ rows) =
      let rest = collect rate base vat rows in
      if row.rate === rate
      then record row { base = m.plus row.base base; vat = m.plus row.vat vat } ∷ rows
      else row ∷ rest

  unfoldable pub by_rate : D → List DraftLine → List (VatSummaryRow D) → List (VatSummaryRow D)
  by_rate factor [] rows = rows
  by_rate factor (line ∷ lines) rows =
      by_rate factor lines (collect (rate_of line) (base_of factor line) (vat_of factor line) rows)

  unfoldable pub invoice_discount : List DraftLine → String → D
  invoice_discount lines percent =
      m.times (sum line_subtotal m.nought lines) (m.over (num (some percent)) m.hundred)

  unfoldable pub factor_of : List DraftLine → String → D
  factor_of lines percent =
      let net = sum line_subtotal m.nought lines in
      if m.is_nought net then m.one else m.minus m.one (m.over (invoice_discount lines percent) net)

  abbrev pub by_falling_rate : VatSummaryRow D → VatSummaryRow D → D
  by_falling_rate a b = m.minus (num (some b.rate)) (num (some a.rate))

  unfoldable pub compute_totals :
      ((VatSummaryRow D → VatSummaryRow D → D) → List (VatSummaryRow D) → List (VatSummaryRow D))
      → List DraftLine
      → String
      → DraftTotals D
  compute_totals sort lines percent =
      let net = sum line_subtotal m.nought lines in
      let factor = factor_of lines percent in
      let subtotal = m.times net factor in
      let vat = sum (vat_of factor) m.nought lines in
      record {
        subtotal = subtotal;
        discount =
            m.plus (m.minus (sum line_gross m.nought lines) net) (invoice_discount lines percent);
        vat = vat;
        total = m.plus subtotal vat;
        vat_summary = sort by_falling_rate (by_rate factor lines []);
      }
