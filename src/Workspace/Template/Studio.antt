-- ===== src/Workspace/Template/Studio.antt =====
-- The template studio: the state of frontend-react/src/workspace/TemplateWorkspace.tsx and
-- BlockCanvas.tsx, with the template that the caller holds, and what the user can do to it. The list
-- is mounted with the editor, and starts with no drag.
pub mod Legal
pub mod Steps
pub mod Runs
use billgen.Prelude.{
  ℕ, zero, suc, String, Bool, true, false, not, List, [], ◌∷◌, map, Option, none, some, ◌==◌, ◌===◌,
  if◌then◌else◌, find, get_elem?,
}
use billgen.Workspace.Template.Schema.{
  BlockProperties, kind_of, TemplateBlock, kind, kind_name, required, TemplateAppearance,
  InvoiceTemplate,
}
use billgen.Workspace.Template.Presets.{
  TemplatePreset, template_presets, DocKind, template_from_preset,
}
use billgen.Workspace.Template.Canvas.{move, nudge_up, nudge_down}

pub data Stage : Type 0 where
  gallery editor : Stage

pub data RailTab : Type 0 where
  block_tab appearance_tab : RailTab

-- Pointer positions only place the row on the screen, and are left out.
pub record DragState : Type 0 where
  pub id : String
  pub from_index : ℕ
  pub over_index : ℕ

pub record Studio : Type 0 where
  pub template : InvoiceTemplate
  -- an existing template is edited: there is no gallery to go back to
  pub skip_gallery : Bool
  pub stage : Stage
  pub preset_key : Option String
  pub selected_id : Option String
  pub rail : RailTab
  pub drag : Option DragState

abbrev first_id : List TemplateBlock → Option String
first_id [] = none
first_id (b ∷ bs) = some b.id

unfoldable pub open_studio : Bool → InvoiceTemplate → Studio
open_studio skip_gallery template = record {
  template = template;
  skip_gallery = skip_gallery;
  stage = if skip_gallery then editor else gallery;
  preset_key = none;
  selected_id = first_id template.blocks;
  rail = block_tab;
  drag = none;
}

abbrev pub with_blocks : Studio → List TemplateBlock → Studio
with_blocks s bs = record s { template = record (s.template) { blocks = bs } }

-- `onReorder`, where the list changed; a dragged row is always one of the list's, so that the
-- `undefined` of an index out of range never arises.
abbrev pub reorder : Studio → Option (List TemplateBlock) → Studio
reorder s none = s
reorder s (some bs) = with_blocks s bs

abbrev pub replaced : TemplateBlock → TemplateBlock → TemplateBlock
replaced next b = if b.id === next.id then next else b

abbrev pub replace_block : TemplateBlock → Studio → Studio
replace_block next s = with_blocks s (map (replaced next) s.template.blocks)

-- `onToggleVisible`.
abbrev pub set_visible : Option TemplateBlock → Bool → Studio → Studio
set_visible none visible s = s
set_visible (some b) visible s = replace_block (record b { visible = visible }) s

-- The checkbox of the row at `index`: it is disabled for a required block.
abbrev pub click_visible : Option TemplateBlock → Bool → Studio → Studio
click_visible none visible s = s
click_visible (some row) visible s =
    if required (kind row)
    then s
    else set_visible (find (λ b. b.id === row.id) s.template.blocks) visible s

-- `PropertyPanel` hands back the selected block with other properties of its kind.
abbrev pub edit_block : Option TemplateBlock → BlockProperties → Studio → Studio
edit_block none p s = s
edit_block (some b) p s =
    if kind_name (kind_of p) === kind_name (kind b)
    then replace_block (record b { properties = p }) s
    else s

abbrev pub selected_block : Option String → List TemplateBlock → Option TemplateBlock
selected_block none bs = none
selected_block (some id) bs = find (λ b. b.id === id) bs

abbrev pub start_drag : ℕ → Option TemplateBlock → Studio → Studio
start_drag index none s = s
start_drag index (some row) s = record s {
  selected_id = some row.id;
  rail = block_tab;
  drag = some (record { id = row.id; from_index = index; over_index = index });
}

abbrev pub move_drag : Option DragState → ℕ → Studio → Studio
move_drag none over s = s
move_drag (some d) over s = record s { drag = some (record d { over_index = over }) }

abbrev pub end_drag : Option DragState → Studio → Studio
end_drag none s = s
end_drag (some d) s =
    let dropped =
      if d.over_index == d.from_index
      then s
      else reorder s (move d.from_index d.over_index s.template.blocks) in
    record dropped { drag = none }

pub data Action : Type 0 where
  pick : ℕ → Action
  customise back : Action
  click_select : String → Action
  click_toggle : ℕ → Bool → Action
  edit : BlockProperties → Action
  restyle : TemplateAppearance → Action
  show_tab : RailTab → Action
  press_grip drag_over : ℕ → Action
  release : Action
  key_up key_down : ℕ → Action

abbrev pub leave_gallery : Option String → Studio → Studio
leave_gallery none s = s
leave_gallery (some key) s = record s { stage = editor; drag = none }

module _ (upper lower : String → String) (now : String) (doc : DocKind) where
  -- `pickPreset`.
  abbrev pub picked : TemplatePreset → InvoiceTemplate → InvoiceTemplate
  picked preset t =
      record (template_from_preset upper lower now preset (some t.id) (some t.name)
        (some t.is_default) doc) { published_version = t.published_version }

  abbrev pub pick_preset : Option TemplatePreset → Studio → Studio
  pick_preset none s = s
  pick_preset (some preset) s = record s {
    preset_key = some preset.key;
    template = picked preset s.template;
  }

  -- One action of the user. The gallery and the editor are shown in turn, and each ignores what
  -- only the other offers; Customise is disabled until a model is picked.
  pub in_gallery : Action → Studio → Studio
  in_gallery (pick index) s = pick_preset (get_elem? template_presets index) s
  in_gallery customise s = leave_gallery s.preset_key s
  in_gallery _ s = s

  pub in_editor : Action → Studio → Studio
  in_editor back s = if s.skip_gallery then s else record s { stage = gallery }
  in_editor (click_select id) s = record s { selected_id = some id; rail = block_tab }
  in_editor (click_toggle index visible) s =
      click_visible (get_elem? s.template.blocks index) visible s
  in_editor (edit p) s = edit_block (selected_block s.selected_id s.template.blocks) p s
  in_editor (restyle a) s = record s { template = record (s.template) { appearance = a } }
  in_editor (show_tab tab) s = record s { rail = tab }
  in_editor (press_grip index) s = start_drag index (get_elem? s.template.blocks index) s
  in_editor (drag_over over) s = move_drag s.drag over s
  in_editor release s = end_drag s.drag s
  in_editor (key_up index) s = reorder s (nudge_up index s.template.blocks)
  in_editor (key_down index) s = reorder s (nudge_down index s.template.blocks)
  in_editor _ s = s

  abbrev pub at_stage : Stage → Action → Studio → Studio
  at_stage gallery a s = in_gallery a s
  at_stage editor a s = in_editor a s

  unfoldable pub act : Action → Studio → Studio
  unfolding in_gallery in_editor
  act a s = at_stage s.stage a s

  unfoldable pub run : List Action → Studio → Studio
  run [] s = s
  run (a ∷ as') s = run as' (act a s)
