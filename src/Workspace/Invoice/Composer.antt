-- ===== src/Workspace/Invoice/Composer.antt =====
-- The four steps that edit a draft: the state of frontend-react/src/workspace/InvoiceWorkspace.tsx
-- with the draft that the caller holds, the handlers of its panels (InvoiceCustomerPicker.tsx,
-- InvoiceItemsEditor.tsx, InvoiceDetailsPanel.tsx, EditItemDrawer.tsx, InvoiceReview.tsx), and what it
-- asks of the caller. DeliveryPanel.tsx is shown as InvoiceWorkspace mounts it, with neither email nor
-- Peppol available.
pub mod Delivery
use billgen.Prelude.{
  ℕ, suc, ltb, ◌&&◌, String, Bool, true, false, not, List, [], ◌∷◌, ◌++◌, map, Option, none, some,
  ◌===◌, if◌then◌else◌, find, filter,
}
use billgen.Workspace.Invoice.Draft.{
  DraftCustomer, DraftLine, DraftReferences, DraftPayment, InvoiceDraft, WorkspaceStep,
  customer_step, items_step, details_step, review_step, empty_line,
}
use billgen.Workspace.Invoice.Items.{
  CatalogItem, catalog_line, add_line, LineChange, patched, change_line, remove_line,
}
use billgen.Workspace.Invoice.Readiness.{Texts, check_readiness, is_ready}

-- `line` is the local copy of EditItemDrawer, which is mounted anew for every line that is opened.
pub record Composer : Type 0 where
  pub draft : InvoiceDraft
  pub step : WorkspaceStep
  pub creating_customer : Bool
  pub editing_line_key : Option String
  pub line : Option DraftLine
  pub delivering : Bool

unfoldable pub open_composer : InvoiceDraft → Composer
open_composer draft = record {
  draft = draft;
  step = customer_step;
  creating_customer = false;
  editing_line_key = none;
  line = none;
  delivering = false;
}

abbrev pub with_lines : List DraftLine → Composer → Composer
with_lines lines s = record s { draft = record (s.draft) { lines = lines } }

abbrev add_product : String → Option CatalogItem → Composer → Composer
add_product key none s = s
add_product key (some product) s = with_lines (add_line (catalog_line key product) s.draft.lines) s

abbrev patch_line : LineChange → Option DraftLine → Composer → Composer
patch_line change none s = s
patch_line change (some l) s =
    let next = patched change l in
    with_lines (change_line next s.draft.lines) (record s { line = some next })

abbrev remove_open : Option DraftLine → Composer → Composer
remove_open none s = s
remove_open (some l) s =
    with_lines (remove_line l.key s.draft.lines) (record s { editing_line_key = none; line = none })

abbrev same_key : Option String → String → Bool
same_key none key = false
same_key (some k) key = k === key

abbrev open_line : String → Composer → Composer
open_line key s =
    if same_key s.editing_line_key key
    then s
    else record s { editing_line_key = some key; line = find (λ l. l.key === key) s.draft.lines }

-- A field of the details panel.
pub data DetailsChange : Type 0 where
  issue_date due_date : Option String → DetailsChange
  currency language notes terms internal_note : String → DetailsChange
  set_references : DraftReferences → DetailsChange
  set_payment : DraftPayment → DetailsChange

abbrev pub detailed : DetailsChange → InvoiceDraft → InvoiceDraft
detailed (issue_date v) d = record d { issue_date = v }
detailed (due_date v) d = record d { due_date = v }
detailed (currency v) d = record d { currency = v }
detailed (language v) d = record d { language = v }
detailed (notes v) d = record d { notes = some v }
detailed (terms v) d = record d { terms = some v }
detailed (internal_note v) d = record d { internal_note = some v }
detailed (set_references v) d = record d { references = v }
detailed (set_payment v) d = record d { payment = v }

-- The neighbours of a step in `WORKSPACE_STEPS`; the buttons are not there where there is none.
abbrev pub step_back : WorkspaceStep → WorkspaceStep
step_back customer_step = customer_step
step_back items_step = customer_step
step_back details_step = items_step
step_back review_step = review_step

abbrev pub step_forward : WorkspaceStep → WorkspaceStep
step_forward customer_step = items_step
step_forward items_step = details_step
step_forward details_step = review_step
step_forward review_step = review_step

pub data Action : Type 0 where
  back_pressed continue_pressed : Action
  -- a completed step of the stepper
  step_clicked : WorkspaceStep → Action
  -- `Change`, offered where a customer is selected, and a choice, where none is
  customer_changed : Action
  customer_selected : Option DraftCustomer → Action
  create_requested create_closed : Action
  create_submitted : DraftCustomer → Action
  -- the key of the new line
  item_added : String → Action
  catalog_picked : String → String → Action
  line_opened : String → Action
  line_closed line_removed : Action
  line_changed : LineChange → Action
  details_changed : DetailsChange → Action
  review_back review_continue : Action

abbrev rank : WorkspaceStep → ℕ
rank customer_step = 0
rank items_step = 1
rank details_step = 2
rank review_step = 3

abbrev pub is_at : WorkspaceStep → WorkspaceStep → Bool
is_at customer_step customer_step = true
is_at items_step items_step = true
is_at details_step details_step = true
is_at review_step review_step = true
is_at _ _ = false

abbrev with_customer : Option DraftCustomer → Composer → Composer
with_customer c s = record s { draft = record (s.draft) { customer = c } }

abbrev select_customer : Option DraftCustomer → Option DraftCustomer → Composer → Composer
select_customer none c s = with_customer c s
select_customer (some now) c s = s

abbrev change_customer : Option DraftCustomer → Composer → Composer
change_customer none s = s
change_customer (some now) s = with_customer none s

-- What a step offers, and a drawer where it is open.
abbrev only_at : WorkspaceStep → Composer → Composer → Composer
only_at step s next = if is_at step s.step then next else s

module _ (texts : Texts) (catalog : List CatalogItem) where
  unfoldable pub act : Action → Composer → Composer
  act back_pressed s = record s { step = step_back s.step }
  act continue_pressed s = record s { step = step_forward s.step }
  act (step_clicked step) s = if ltb (rank step) (rank s.step) then record s { step = step } else s
  act customer_changed s = only_at customer_step s (change_customer s.draft.customer s)
  act (customer_selected c) s = only_at customer_step s (select_customer s.draft.customer c s)
  act create_requested s = only_at customer_step s (record s { creating_customer = true })
  act create_closed s = record s { creating_customer = false }
  act (create_submitted c) s =
      if s.creating_customer
      then with_customer (some c) (record s { creating_customer = false })
      else s
  act (item_added key) s =
      only_at items_step s (with_lines (add_line (empty_line key) s.draft.lines) s)
  act (catalog_picked id key) s =
      only_at items_step s (add_product key (find (λ item. item.id === id) catalog) s)
  act (line_opened key) s = only_at items_step s (open_line key s)
  act line_closed s = record s { editing_line_key = none; line = none }
  act line_removed s = remove_open s.line s
  act (line_changed change) s = patch_line change s.line s
  act (details_changed change) s =
      only_at details_step s (record s { draft = detailed change s.draft })
  act review_back s =
      only_at review_step s (if s.delivering then s else record s { step = details_step })
  act review_continue s = only_at review_step s (
      if not s.delivering && is_ready (check_readiness texts s.draft)
      then record s { delivering = true }
      else s)

  unfoldable pub run : List Action → Composer → Composer
  run [] s = s
  run (a ∷ as') s = run as' (act a s)
