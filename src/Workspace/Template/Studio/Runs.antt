-- ===== src/Workspace/Template/Studio/Runs.antt =====
-- Whatever the user does in the studio, the template stays one that can be issued.
use mathlib.Core.Path.{subst}
use billgen.Prelude.{
  ℕ, zero, suc, String, ◌<◌, Bool, true, false, List, [], ◌∷◌, Option, none, some, ◌≡◌, refl, ap,
  inl, inr, All-get_elem?, arith, ◌==◌, if◌then◌else◌, get_elem?, length, ltb, Bool-cases,
}
use billgen.Workspace.Template.Schema.{TemplateBlock, InvoiceTemplate}
use billgen.Workspace.Template.Presets.{
  DocKind, TemplatePreset, template_presets, template_from_preset,
}
use billgen.Workspace.Template.Canvas.{move, nudge_up, nudge_down}
use billgen.Workspace.Template.Studio.{
  Studio, Stage, gallery, editor, DragState, Action, pick, customise, back, click_select,
  click_toggle, edit, restyle, show_tab, press_grip, drag_over, release, key_up, key_down, reorder,
  selected_block, start_drag, move_drag, end_drag, leave_gallery, pick_preset, in_gallery,
  in_editor, at_stage, act, run, open_studio,
}
use billgen.Workspace.Template.Studio.Legal.{
  IsLegal, drag_fits, drag_fits-none, drag_fits_of_lt, drag_fits-over, are_legal, is_sound, Keeps,
  move-Keeps, and_left, get_elem?-all, find-all,
}
use billgen.Workspace.Template.Studio.Steps.{
  reorder-IsLegal, click_visible-IsLegal, edit_block-IsLegal,
}

get_elem?-lt : {A : Type 0} (xs : List A) (i : ℕ) {x : A} → get_elem? xs i ≡ some x → i < length xs
get_elem?-lt [] i e = cc
get_elem?-lt (x ∷ xs) zero e = omega arith
get_elem?-lt (x ∷ xs) (suc i) e = omega (arith, get_elem?-lt xs i e)

nudge_up-Keeps : {A : Type 0} (i : ℕ) (xs ys : List A) → nudge_up i xs ≡ some ys → Keeps xs ys
unfolding nudge_up
nudge_up-Keeps zero xs ys e = cc
nudge_up-Keeps (suc i) xs ys e = move-Keeps (suc i) i xs ys e

nudge_down-Keeps : {A : Type 0} (i : ℕ) (xs ys : List A) → nudge_down i xs ≡ some ys → Keeps xs ys
unfolding nudge_down
nudge_down-Keeps i xs ys e = elim (Bool-cases (ltb (suc i) (length xs))) [
  | inl inside ↦ move-Keeps i (suc i) xs ys (rw inside at e)
  | inr outside ↦ let no : none ≡ some ys = rw outside at e in cc
]

start_drag-IsLegal :
    (index : ℕ) (o : Option TemplateBlock) (s : Studio)
    → get_elem? s.template.blocks index ≡ o
    → IsLegal s
    → IsLegal (start_drag index o s)
start_drag-IsLegal index none s e v = v
start_drag-IsLegal index (some row) s e v = record {
  legal = v.legal;
  fits = drag_fits_of_lt s.stage _ _ (get_elem?-lt s.template.blocks index e);
}

move_drag-IsLegal :
    (d : Option DragState) (over : ℕ) (s : Studio)
    → s.drag ≡ d
    → IsLegal s
    → IsLegal (move_drag d over s)
move_drag-IsLegal none over s e v = v
move_drag-IsLegal (some d) over s e v = record {
  legal = v.legal;
  fits =
      drag_fits-over s.stage d over (length s.template.blocks)
        (subst (λ x. drag_fits s.stage x (length s.template.blocks) ≡ true) e v.fits);
}

end_drag-IsLegal : (d : Option DragState) (s : Studio) → IsLegal s → IsLegal (end_drag d s)
end_drag-IsLegal none s v = v
end_drag-IsLegal (some d) s v = record { legal = dropped; fits = drag_fits-none _ _ }
  where
    dropped :
        are_legal
          (if d.over_index == d.from_index
            then s
            else reorder s (move d.from_index d.over_index s.template.blocks)).template.blocks
        ≡ true
    dropped = elim (Bool-cases (d.over_index == d.from_index)) [
      | inl stays ↦ rw stays v.legal
      | inr moves ↦
          rw moves
            (reorder-IsLegal s (move d.from_index d.over_index s.template.blocks) v
              (move-Keeps d.from_index d.over_index s.template.blocks)).legal
    ]

selected_block-is_sound :
    (o : Option String) (bs : List TemplateBlock) (row : TemplateBlock)
    → are_legal bs ≡ true
    → selected_block o bs ≡ some row
    → is_sound row ≡ true
selected_block-is_sound none bs row h e = cc
selected_block-is_sound (some id) bs row h e = (find-all is_sound _ bs (and_left _ _ h) e).0

module _ (upper lower : String → String) (now : String) (doc : DocKind) where
  abbrev preset_blocks : TemplatePreset → InvoiceTemplate → List TemplateBlock
  preset_blocks preset t =
      (template_from_preset upper lower now preset (some t.id) (some t.name) (some t.is_default)
        doc).blocks

  -- A model of the gallery, by its place in it.
  template_from_preset-legal :
      (t : InvoiceTemplate) (i : ℕ) {preset : TemplatePreset}
      → get_elem? template_presets i ≡ some preset
      → are_legal (preset_blocks preset t) ≡ true
  unfolding template_from_preset
  template_from_preset-legal t i e =
      All-get_elem? (λ preset. are_legal (preset_blocks preset t) ≡ true) template_presets i
        (refl, (refl, (refl, (refl, (refl, tt))))) e

  in_gallery-IsLegal :
      (a : Action) (s : Studio)
      → s.stage ≡ gallery
      → IsLegal s
      → IsLegal (in_gallery upper lower now doc a s)
  unfolding in_gallery
  in_gallery-IsLegal (pick index) s st v = picked-IsLegal (get_elem? template_presets index) refl
    where
      picked-IsLegal :
          (o : Option TemplatePreset)
          → get_elem? template_presets index ≡ o
          → IsLegal (pick_preset upper lower now doc o s)
      picked-IsLegal none e = v
      picked-IsLegal (some preset) e = record {
        legal = template_from_preset-legal s.template index e;
        fits = ap (λ st'. drag_fits st' s.drag (length (preset_blocks preset s.template))) st;
      }
  in_gallery-IsLegal customise s st v = left (s.preset_key)
    where
      left : (o : Option String) → IsLegal (leave_gallery o s)
      left none = v
      left (some key) = record { legal = v.legal; fits = refl }
  in_gallery-IsLegal back s st v = v
  in_gallery-IsLegal _ s st v = v

  in_editor-IsLegal :
      (a : Action) (s : Studio) → IsLegal s → IsLegal (in_editor upper lower now doc a s)
  unfolding in_editor
  in_editor-IsLegal back s v = left s.skip_gallery
    where
      left : (skip : Bool) → IsLegal (if skip then s else record s { stage = gallery })
      left true = v
      left false = record { legal = v.legal; fits = refl }
  in_editor-IsLegal (click_select id) s v = record { legal = v.legal; fits = v.fits }
  in_editor-IsLegal (click_toggle index visible) s v =
      click_visible-IsLegal (get_elem? s.template.blocks index) visible s v
        (λ row. get_elem?-all is_sound s.template.blocks index (and_left _ _ v.legal))
  in_editor-IsLegal (edit p) s v =
      edit_block-IsLegal (selected_block s.selected_id s.template.blocks) p s v
        (λ row. selected_block-is_sound s.selected_id s.template.blocks row v.legal)
  in_editor-IsLegal (restyle a) s v = record { legal = v.legal; fits = v.fits }
  in_editor-IsLegal (show_tab tab) s v = record { legal = v.legal; fits = v.fits }
  in_editor-IsLegal (press_grip index) s v = start_drag-IsLegal index _ s refl v
  in_editor-IsLegal (drag_over over) s v = move_drag-IsLegal s.drag over s refl v
  in_editor-IsLegal release s v = end_drag-IsLegal s.drag s v
  in_editor-IsLegal (key_up index) s v =
      reorder-IsLegal s (nudge_up index s.template.blocks) v
        (nudge_up-Keeps index s.template.blocks)
  in_editor-IsLegal (key_down index) s v =
      reorder-IsLegal s (nudge_down index s.template.blocks) v
        (nudge_down-Keeps index s.template.blocks)
  in_editor-IsLegal _ s v = v

  act-IsLegal : (a : Action) (s : Studio) → IsLegal s → IsLegal (act upper lower now doc a s)
  unfolding act
  act-IsLegal a s v = by_stage s.stage refl
    where
      by_stage : (st : Stage) → s.stage ≡ st → IsLegal (at_stage upper lower now doc st a s)
      by_stage gallery e = in_gallery-IsLegal a s e v
      by_stage editor e = in_editor-IsLegal a s v

  -- From a template whose blocks are named for their kinds, and in which every required block is
  -- there and shown, no sequence of actions (models picked, blocks dragged, moved by keys, shown or
  -- hidden, edited, restyled) leads to one where a required block is missing or hidden, and a dragged
  -- row is always a row of the list.
  pub run-IsLegal :
      (actions : List Action) (s : Studio) → IsLegal s → IsLegal (run upper lower now doc actions s)
  unfolding run
  run-IsLegal [] s v = v
  run-IsLegal (a ∷ actions) s v =
      run-IsLegal actions (act upper lower now doc a s) (act-IsLegal a s v)

  -- The studio that opens on the template of a starter model, for any kind of document, has every
  -- required block, shown, its blocks are named for their kinds, and no row is dragged out of the list.
  pub preset-IsLegal :
      (skip : Bool) (i : ℕ) {preset : TemplatePreset} (t : InvoiceTemplate)
      → get_elem? template_presets i ≡ some preset
      → IsLegal (
          open_studio skip (
            template_from_preset upper lower now preset
              (some t.id)
              (some t.name)
              (some t.is_default)
              doc))
  unfolding open_studio
  preset-IsLegal skip i t e = record {
    legal = template_from_preset-legal t i e;
    fits = drag_fits-none _ _;
  }
