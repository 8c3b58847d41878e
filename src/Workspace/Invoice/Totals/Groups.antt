-- ===== src/Workspace/Invoice/Totals/Groups.antt =====
-- The VAT summary: one row per rate, with the sums of the lines of that rate.
use mathlib.Core.List.{Perm}
use billgen.Prelude.{
  String, Bool, true, not, ◌&&◌, ◌||◌, List, [], ◌∷◌, Option, none, some, ◌≡◌, refl, ap, ◌∙◌, ◌===◌,
  if◌then◌else◌, find, filter, any, eq_iff, arith, Bool-cases, inl, inr,
}
use billgen.Workspace.Invoice.Draft.{DraftLine}
use billgen.Workspace.Invoice.Totals.{
  Doubles, VatSummaryRow, sum, rate_of, base_of, vat_of, collect, by_rate, factor_of,
  compute_totals,
}

module _ {D : Type 0} where
  abbrev pub row_at : String → List (VatSummaryRow D) → Option (VatSummaryRow D)
  row_at key rows = find (λ row. row.rate === key) rows

  abbrev pub has_row : String → List (VatSummaryRow D) → Bool
  has_row key rows = any (λ row. row.rate === key) rows

  abbrev pub are_distinct : List (VatSummaryRow D) → Bool
  are_distinct [] = true
  are_distinct (row ∷ rows) = not (has_row row.rate rows) && are_distinct rows

module _ {D : Type 0} (m : Doubles D) where
  abbrev pub has_rate : String → DraftLine → Bool
  has_rate key line = rate_of m line === key

  -- What a row holds after the lines.
  abbrev grown : D → List DraftLine → VatSummaryRow D → VatSummaryRow D
  grown factor lines row = record row {
    base = sum m (base_of m factor) row.base lines;
    vat = sum m (vat_of m factor) row.vat lines;
  }

  abbrev fresh : String → VatSummaryRow D
  fresh key = record { rate = key; base = m.nought; vat = m.nought }

  abbrev grown_row :
      String → D → List DraftLine → Option (VatSummaryRow D) → Option (VatSummaryRow D)
  grown_row key factor lines (some row) = some (grown factor (filter (has_rate key) lines) row)
  grown_row key factor lines none =
      if any (has_rate key) lines
      then some (grown factor (filter (has_rate key) lines) (fresh key))
      else none

  abbrev bumped : D → D → VatSummaryRow D → VatSummaryRow D
  bumped base vat row = record row { base = m.plus row.base base; vat = m.plus row.vat vat }

  abbrev collected : String → D → D → Option (VatSummaryRow D) → Option (VatSummaryRow D)
  collected rate base vat none = some (bumped base vat (fresh rate))
  collected rate base vat (some row) = some (bumped base vat row)

  row_at-collect :
      (rate : String) (base vat : D) (rows : List (VatSummaryRow D)) (key : String)
      → row_at key (collect m rate base vat rows)
        ≡ (if rate === key then collected rate base vat (row_at key rows) else row_at key rows)
  unfolding collect
  row_at-collect rate base vat [] key = ground arith
  row_at-collect rate base vat (row ∷ rows) key = ground (
    arith,
    eq_iff row.rate rate,
    eq_iff row.rate key,
    eq_iff rate key,
    row_at-collect rate base vat rows key,
  )

  has_row-collect :
      (rate : String) (base vat : D) (rows : List (VatSummaryRow D)) (key : String)
      → has_row key (collect m rate base vat rows) ≡ (rate === key || has_row key rows)
  unfolding collect
  has_row-collect rate base vat [] key = ground arith
  has_row-collect rate base vat (row ∷ rows) key = ground (
    arith,
    eq_iff row.rate rate,
    eq_iff row.rate key,
    eq_iff rate key,
    has_row-collect rate base vat rows key,
  )

  collect-distinct :
      (rate : String) (base vat : D) (rows : List (VatSummaryRow D))
      → are_distinct rows ≡ true
      → are_distinct (collect m rate base vat rows) ≡ true
  unfolding collect
  collect-distinct rate base vat [] h = refl
  collect-distinct rate base vat (row ∷ rows) h = ground (
    arith,
    eq_iff row.rate rate,
    eq_iff rate row.rate,
    has_row-collect rate base vat rows row.rate,
    collect-distinct rate base vat rows,
  )

  by_rate-distinct :
      (factor : D) (lines : List DraftLine) (rows : List (VatSummaryRow D))
      → are_distinct rows ≡ true
      → are_distinct (by_rate m factor lines rows) ≡ true
  unfolding by_rate
  by_rate-distinct factor [] rows h = h
  by_rate-distinct factor (line ∷ lines) rows h =
      by_rate-distinct factor lines _ (collect-distinct _ _ _ rows h)

  grown-step :
      (key : String) (factor : D) (line : DraftLine) (lines : List DraftLine)
      (o : Option (VatSummaryRow D))
      → grown_row key factor lines (
          if rate_of m line === key
          then collected (rate_of m line) (base_of m factor line) (vat_of m factor line) o
          else o)
        ≡ grown_row key factor (line ∷ lines) o
  grown-step key factor line lines none = elim (Bool-cases (rate_of m line === key)) [
    | inl hit ↦ rw hit (
        ap
          (λ r. some (
            grown factor (filter (has_rate key) lines)
              (bumped (base_of m factor line) (vat_of m factor line) (fresh r))))
          ((eq_iff (rate_of m line) key).0 hit))
    | inr miss ↦ rw miss refl
  ]
  grown-step key factor line lines (some row) = elim (Bool-cases (rate_of m line === key)) [
    | inl hit ↦ rw hit refl
    | inr miss ↦ rw miss refl
  ]

  grown-none :
      (key : String) (factor : D) (o : Option (VatSummaryRow D)) → o ≡ grown_row key factor [] o
  grown-none key factor none = refl
  grown-none key factor (some row) = refl

  row_at-by_rate :
      (factor : D) (lines : List DraftLine) (rows : List (VatSummaryRow D)) (key : String)
      → row_at key (by_rate m factor lines rows) ≡ grown_row key factor lines (row_at key rows)
  unfolding by_rate
  row_at-by_rate factor [] rows key = grown-none key factor (row_at key rows)
  row_at-by_rate factor (line ∷ lines) rows key =
      row_at-by_rate factor lines _ key
      ∙ ap (grown_row key factor lines) (row_at-collect _ _ _ rows key)
      ∙ grown-step key factor line lines (row_at key rows)

  -- The row of a rate: none where no line has it, and otherwise the sums of the VAT bases and of the
  -- VAT over the lines that have it, in their order.
  abbrev pub rate_row : String → D → List DraftLine → Option (VatSummaryRow D)
  rate_row key factor lines =
      if any (has_rate key) lines
      then some (record {
        rate = key;
        base = sum m (base_of m factor) m.nought (filter (has_rate key) lines);
        vat = sum m (vat_of m factor) m.nought (filter (has_rate key) lines);
      })
      else none

  -- The VAT summary lists, in the order of the sort, rows of distinct rates, one for each rate that a
  -- line has and no other, with the sums of the bases and of the VAT over the lines of that rate,
  -- whatever the platform's arithmetic is. It is assumed that the sort permutes the rows.
  pub compute_totals-groups :
      (sort : (VatSummaryRow D → VatSummaryRow D → D)
        → List (VatSummaryRow D)
        → List (VatSummaryRow D))
      (lines : List DraftLine) (percent key : String)
      → ((order : VatSummaryRow D → VatSummaryRow D → D) (rows : List (VatSummaryRow D))
          → Perm (sort order rows) rows)
      → (rows : List (VatSummaryRow D)) × Perm
          (compute_totals m sort lines percent).vat_summary
          rows
        × (are_distinct rows ≡ true)
        × (row_at key rows ≡ rate_row key (factor_of m lines percent) lines)
  unfolding compute_totals
  compute_totals-groups sort lines percent key permutes =
      let factor = factor_of m lines percent in
      (
        by_rate m factor lines [],
        permutes _ _,
        by_rate-distinct factor lines [] refl,
        row_at-by_rate factor lines [] key,
      )
