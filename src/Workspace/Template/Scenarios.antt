-- ===== src/Workspace/Template/Scenarios.antt =====
-- The templates at concrete inputs.
use billgen.Prelude.{
  ℕ, true, false, String, List, [], ◌∷◌, Option, none, some, ◌≡◌, refl, get_elem?, arith,
}
use mathlib.Core.List.{Perm}
use billgen.Workspace.Template.Schema.{TemplateBlock, of_notes, InvoiceTemplate}
use billgen.Workspace.Template.Wire.{
  TemplateRow, TemplateUpdate, IsStored, version_of, to_studio, from_studio, to_studio-from_studio,
}
use billgen.Workspace.Template.Defaults.{default_template}
use billgen.Workspace.Template.Presets.{quote, modern, template_from_preset}
use billgen.Workspace.Template.Canvas.{move, remove_at, drawn_at}
use billgen.Workspace.Template.Canvas.Moves.{move_lem, drawn_at-move}
use billgen.Workspace.Template.Studio.{
  Studio, Action, pick, customise, press_grip, drag_over, release, click_toggle, key_down,
  open_studio, run,
}
use billgen.Workspace.Template.Studio.Legal.{IsLegal}
use billgen.Workspace.Template.Studio.Runs.{run-IsLegal, preset-IsLegal}

abbrev rows : List ℕ
rows = 10 ∷ 11 ∷ 12 ∷ 13 ∷ []

move_lem_example :
    (y : ℕ) × (rest ys : List ℕ) × (move 0 2 rows ≡ some ys)
    × (remove_at 0 rows ≡ some (y, rest))
    × (remove_at 2 ys ≡ some (y, rest))
    × Perm ys rows
    × (move 2 0 ys ≡ some rows)
move_lem_example = move_lem 0 2 rows (omega arith) (omega arith)

drawn_at-move_example :
    (get_elem? (11 ∷ 12 ∷ 10 ∷ 13 ∷ []) 2 ≡ get_elem? rows 0)
    × (get_elem? (11 ∷ 12 ∷ 10 ∷ 13 ∷ []) (drawn_at 0 2 1) ≡ get_elem? rows 1)
unfolding move remove_at
drawn_at-move_example =
    drawn_at-move 0 2 rows (11 ∷ 12 ∷ 10 ∷ 13 ∷ []) 1 (omega arith) (omega arith) refl (omega arith)

-- Two mounted rows, by the height of their middles, and one that is not.
abbrev boxes : List (Option ℕ)
boxes = some 20 ∷ none ∷ some 60 ∷ []

abbrev same : String → String
same s = s

abbrev stored : InvoiceTemplate
stored = default_template "2026-01-01" "t1" "Default"

abbrev stored_row : TemplateRow
stored_row = record {
  id = "t1";
  name = "Old";
  is_default = false;
  published_version = none;
  blocks = [];
  appearance = record {
    brand_color = none;
    text_token = none;
    border_token = none;
    font_family = none;
    body_size_pt = none;
    heading_size_pt = none;
    page_size = none;
    margins = none;
    density = none;
  };
}

abbrev only_block : TemplateBlock
only_block = record { id = "notes"; visible = true; properties = of_notes (record { body = "" }) }

abbrev one_block : InvoiceTemplate
one_block = record stored { blocks = only_block ∷ [] }

-- The row as the server keeps it once it has taken an update.
abbrev taken : TemplateUpdate → TemplateRow
taken u = record stored_row { name = u.name; blocks = u.blocks; appearance = u.appearance }

taken-IsStored : (u : TemplateUpdate) → IsStored u stored_row (taken u)
taken-IsStored u = record {
  name_in = refl;
  blocks_in = refl;
  appearance_in = refl;
  id_in = refl;
  is_default_in = refl;
  published_version_in = refl;
}

to_studio-from_studio_example :
    (to_studio "2026-01-03" (taken (from_studio one_block)) ≡ record one_block {
      id = stored_row.id;
      is_default = stored_row.is_default;
      published_version = version_of stored_row.published_version;
      updated_at = "2026-01-03";
    })
    × (to_studio "2026-01-03" (taken (from_studio (to_studio "2026-01-02" stored_row)))
        ≡ record (to_studio "2026-01-02" stored_row) { updated_at = "2026-01-03" })
to_studio-from_studio_example =
    to_studio-from_studio "2026-01-02" "2026-01-03" stored_row (taken (from_studio one_block))
      (taken (from_studio (to_studio "2026-01-02" stored_row))) one_block only_block [] refl
      (taken-IsStored (from_studio one_block))
      (taken-IsStored (from_studio (to_studio "2026-01-02" stored_row)))

abbrev begun : Studio
begun = open_studio false (
    template_from_preset same same "2026-01-02" modern (some stored.id) (some stored.name)
      (some stored.is_default) quote)

abbrev clicks : List Action
clicks =
    pick 0
    ∷ customise
    ∷ press_grip 0
    ∷ drag_over 3
    ∷ release
    ∷ click_toggle 0 false
    ∷ key_down 1
    ∷ []

begun-IsLegal : IsLegal begun
begun-IsLegal = preset-IsLegal same same "2026-01-02" quote false 1 {preset = modern} stored refl

run-IsLegal_example : IsLegal (run same same "2026-01-02" quote clicks begun)
run-IsLegal_example = run-IsLegal same same "2026-01-02" quote clicks begun begun-IsLegal
