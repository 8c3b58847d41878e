-- ===== src/Workspace/Template/Presets/Columns.antt =====
-- The columns of the items block: those of the starter models, and what the checkboxes of the
-- property panel do to them.
use billgen.Prelude.{
  ℕ, String, Bool, true, false, not, ◌&&◌, ◌||◌, List, [], ◌∷◌, ◌++◌, Option, none, some, ◌≡◌, refl,
  ◌∙◌, arith, ◌===◌, if◌then◌else◌, any, filter, get_elem?, All-get_elem?, eq_iff, Bool-cases, inl,
  inr,
}
use billgen.Workspace.Template.Schema.{
  TemplateBlock, BlockProperties, of_header, of_items, item_column_label, InvoiceTemplate,
}
use billgen.Workspace.Template.Presets.{
  DocKind, TemplatePreset, template_presets, template_from_preset, all_columns, has_column,
  toggle_column,
}

-- The columns that a template prints.
abbrev columns_in : BlockProperties → List String
columns_in (of_header p) = []
columns_in (of_items p) = p.columns
columns_in _ = []

abbrev pub printed_columns : List TemplateBlock → List String
printed_columns [] = []
printed_columns (b ∷ bs) = columns_in b.properties ++ printed_columns bs

abbrev pub no_label : Option String → Bool
no_label none = true
no_label (some l) = false

abbrev pub has_unlabelled : List String → Bool
has_unlabelled = any (λ c. no_label (item_column_label c))

-- Of the five starter models every one but "editorial" prints a column that the column labels do not
-- know, on every kind of document.
preset-unlabelled :
    (upper lower : String → String) (now : String) (doc : DocKind) (t : InvoiceTemplate) (i : ℕ)
    {preset : TemplatePreset}
    → get_elem? template_presets i ≡ some preset
    → has_unlabelled (
        printed_columns
          (template_from_preset upper lower now preset
            (some t.id)
            (some t.name)
            (some t.is_default)
            doc).blocks)
      ≡ not (preset.key === "editorial")
unfolding template_from_preset item_column_label
preset-unlabelled upper lower now doc t i e =
    All-get_elem?
      (λ preset.
        has_unlabelled (
          printed_columns
            (template_from_preset upper lower now preset (some t.id) (some t.name)
              (some t.is_default) doc).blocks)
        ≡ not (preset.key === "editorial"))
      template_presets i (refl, (refl, (refl, (refl, (refl, tt))))) e

has_column-filter :
    (p : String → Bool) (xs : List String) (d : String)
    → has_column (filter p xs) d ≡ (has_column xs d && p d)
has_column-filter p [] d = refl
has_column-filter p (x ∷ xs) d = elim (Bool-cases (p x)) [
  | inl keep ↦ rw keep (ground (arith, eq_iff x d, has_column-filter p xs d))
  | inr drop ↦ rw drop (ground (arith, eq_iff x d, has_column-filter p xs d))
]

any-filter :
    (q p : String → Bool) (xs : List String) → any q xs ≡ false → any q (filter p xs) ≡ false
any-filter q p [] h = refl
any-filter q p (x ∷ xs) h = elim (Bool-cases (p x)) [
  | inl keep ↦ rw keep (ground (arith, any-filter q p xs))
  | inr drop ↦ rw drop (any-filter q p xs (ground arith))
]

decided :
    (here other known : Bool)
    → known ≡ true
    → ((known && (here || other)) ≡ (if here then true else other))
      × ((other && not here) ≡ (if here then false else other))
decided here other known h = ground (arith, h)

-- A checkbox decides its own column and no other, among the columns that exist.
toggle_column_lem :
    (c : String) (on : Bool) (columns : List String) (d : String)
    → has_column all_columns d ≡ true
    → has_column (toggle_column c on columns) d ≡ (if d === c then on else has_column columns d)
unfolding toggle_column
toggle_column_lem c true columns d h =
    has_column-filter (λ e. e === c || has_column columns e) all_columns d
    ∙ (decided (d === c) (has_column columns d) (has_column all_columns d) h).0
toggle_column_lem c false columns d h =
    has_column-filter (λ e. not (e === c)) columns d
    ∙ (decided (d === c) (has_column columns d) (has_column all_columns d) h).1

-- Showing a column drops every column that has no label.
toggle_column-labelled :
    (c : String) (columns : List String) → has_unlabelled (toggle_column c true columns) ≡ false
unfolding toggle_column item_column_label
toggle_column-labelled c columns =
    any-filter (λ x. no_label (item_column_label x)) (λ e. e === c || has_column columns e)
      all_columns refl
