-- ===== src/Workspace/Template/Presets.antt =====
-- frontend-react/src/workspace/templatePresets.ts, and the columns of the items block as
-- PropertyPanel.tsx edits them. `toUpperCase` and `toLowerCase` are the platform's.
pub mod Columns
use Prim.Native.String
use billgen.Prelude.{
  ℕ, String, Bool, true, false, List, [], ◌∷◌, ◌++◌, map, filter, any, ◌||◌, not, Option, none,
  some, ◌===◌, if◌then◌else◌, find,
}
use billgen.Workspace.Template.Schema.{
  BlockKind, header, parties, document_meta, items, totals, payment, notes, terms, footer,
  Alignment, start, center, comfortable, compact, spacious, includes, TemplateBlock, kind,
  BlockProperties, of_header, of_items, TemplateAppearance, satoshi, helvetica, georgia, verdana,
  a4, narrow, standard, wide, InvoiceTemplate,
}
use billgen.Workspace.Template.Defaults.{default_blocks}

pub data DocKind : Type 0 where
  invoice quote credit_note : DocKind

abbrev pub doc_title : DocKind → String
doc_title invoice = "INVOICE"
doc_title quote = "QUOTE"
doc_title credit_note = "CREDIT NOTE"

-- What a model may override in a block. A key that the block's properties do not have would be read
-- by nothing.
pub record Overrides : Type 0 where
  pub alignment : Option Alignment
  pub document_title : Option String
  pub show_logo : Option Bool
  pub columns : Option (List String)

abbrev pub no_overrides : Overrides
no_overrides = record { alignment = none; document_title = none; show_logo = none; columns = none }

pub record TemplatePreset : Type 0 where
  pub key : String
  pub name : String
  pub tagline : String
  pub appearance : TemplateAppearance
  pub visible : List BlockKind
  -- by block id; a model without overrides has the empty list
  pub properties : List (String × Overrides)

abbrev pub always : List BlockKind
always = header ∷ parties ∷ document_meta ∷ items ∷ totals ∷ []

abbrev titled : Alignment → String → Overrides
titled side title = record no_overrides { alignment = some side; document_title = some title }

abbrev listing : List String → Overrides
listing keys = record no_overrides { columns = some keys }

abbrev pub classic : TemplatePreset
classic = record {
  key = "classic";
  name = "Classic";
  tagline = "Left-aligned header, full VAT column, payment terms in the footer.";
  appearance = record {
    brand = record { color = "#0f766e"; text_token = "--bg-ink"; border_token = "--bg-line" };
    typography = record { font_family = satoshi; body_size_pt = 10; heading_size_pt = 24 };
    page = record { size = a4; margins = standard; density = comfortable };
  };
  visible = always ++ payment ∷ footer ∷ [];
  properties =
      ("header", titled start "INVOICE")
      ∷ ("items", listing ("description" ∷ "quantity" ∷ "unitPrice" ∷ "vat" ∷ "lineTotal" ∷ []))
      ∷ [];
}

abbrev pub modern : TemplatePreset
modern = record {
  key = "modern";
  name = "Modern";
  tagline = "Centred title, wide margins, no rules between lines.";
  appearance = record {
    brand = record { color = "#1d4ed8"; text_token = "--bg-ink"; border_token = "--bg-line" };
    typography = record { font_family = satoshi; body_size_pt = 10; heading_size_pt = 30 };
    page = record { size = a4; margins = wide; density = spacious };
  };
  visible = always ++ payment ∷ notes ∷ [];
  properties =
      ("header", titled center "Invoice")
      ∷ ("items", listing ("description" ∷ "quantity" ∷ "unitPrice" ∷ "lineTotal" ∷ []))
      ∷ [];
}

abbrev pub minimal : TemplatePreset
minimal = record {
  key = "minimal";
  name = "Minimal";
  tagline = "No logo, no footer, the smallest document that is still legal.";
  appearance = record {
    brand = record { color = "#0f172a"; text_token = "--bg-ink"; border_token = "--bg-line" };
    typography = record { font_family = helvetica; body_size_pt = 9; heading_size_pt = 18 };
    page = record { size = a4; margins = narrow; density = compact };
  };
  visible = always;
  properties =
      ("header", record (titled start "INVOICE") { show_logo = some false })
      ∷ ("items", listing ("description" ∷ "quantity" ∷ "lineTotal" ∷ []))
      ∷ [];
}

abbrev pub editorial : TemplatePreset
editorial = record {
  key = "editorial";
  name = "Editorial";
  tagline = "Serif throughout. Reads like a letter rather than a receipt.";
  appearance = record {
    brand = record { color = "#7c2d12"; text_token = "--bg-ink"; border_token = "--bg-line" };
    typography = record { font_family = georgia; body_size_pt = 11; heading_size_pt = 26 };
    page = record { size = a4; margins = wide; density = comfortable };
  };
  visible = always ++ notes ∷ terms ∷ footer ∷ [];
  properties = ("header", titled start "Invoice") ∷ [];
}

abbrev pub dense : TemplatePreset
dense = record {
  key = "dense";
  name = "Dense";
  tagline = "For long item lists. Fits roughly twice the lines on a page.";
  appearance = record {
    brand = record { color = "#166534"; text_token = "--bg-ink"; border_token = "--bg-line" };
    typography = record { font_family = verdana; body_size_pt = 8; heading_size_pt = 16 };
    page = record { size = a4; margins = narrow; density = compact };
  };
  visible = always ++ payment ∷ [];
  properties =
      ("header", titled start "INVOICE")
      ∷ ("items", listing ("description" ∷ "quantity" ∷ "unitPrice" ∷ "vat" ∷ "lineTotal" ∷ []))
      ∷ [];
}

abbrev pub template_presets : List TemplatePreset
template_presets = classic ∷ modern ∷ minimal ∷ editorial ∷ dense ∷ []

abbrev or_first : Option TemplatePreset → TemplatePreset
or_first none = classic
or_first (some preset) = preset

unfoldable pub preset_by_key : String → TemplatePreset
preset_by_key key = or_first (find (λ preset. preset.key === key) template_presets)

-- `preset.properties?.[id] ?? {}`
abbrev overrides_for : String → List (String × Overrides) → Overrides
overrides_for id [] = no_overrides
overrides_for id ((k, o) ∷ rest) = if k === id then o else overrides_for id rest

abbrev pub keep {ℓ} : {A : Type ℓ} → Option A → A → A
keep none old = old
keep (some new) old = new

module _ (upper lower : String → String) where
  -- `charAt(0) + slice(1).toLowerCase()`, on characters.
  abbrev capitalized : String → String
  capitalized String.[] = ""
  capitalized (String.◌∷◌ c s) = String.◌∷◌ c (lower s)

  unfoldable pub match_case : String → String → String
  match_case word sample =
      if sample === ""
      then word
      else if sample === upper sample
      then upper word
      else capitalized word

  -- `{ ...block.properties, ...extra, ...titled }`
  abbrev override : DocKind → Overrides → BlockProperties → BlockProperties
  override doc o (of_header p) = of_header (record p {
    show_logo = keep o.show_logo p.show_logo;
    alignment = keep o.alignment p.alignment;
    document_title = match_case (doc_title doc) (keep o.document_title "");
  })
  override doc o (of_items p) = of_items (record p { columns = keep o.columns p.columns })
  override doc o other = other

  abbrev pub shaped : TemplatePreset → DocKind → TemplateBlock → TemplateBlock
  shaped preset doc b = record {
    id = b.id;
    visible = includes preset.visible (kind b);
    properties = override doc (overrides_for b.id preset.properties) b.properties;
  }

  -- The overrides of `templateFromPreset`, `docKind` aside, are options; `now` is the time.
  unfoldable pub template_from_preset :
      String
      → TemplatePreset
      → Option String
      → Option String
      → Option Bool
      → DocKind
      → InvoiceTemplate
  unfolding default_blocks match_case
  template_from_preset now preset id name is_default doc = record {
    id = keep id (String.◌++◌ "template-" preset.key);
    name = keep name preset.name;
    is_default = keep is_default false;
    blocks = map (shaped preset doc) default_blocks;
    appearance = preset.appearance;
    published_version = 0;
    updated_at = now;
  }

abbrev pub all_columns : List String
all_columns = "description" ∷ "quantity" ∷ "unit" ∷ "unit_price" ∷ "discount" ∷ "vat" ∷ "total" ∷ []

abbrev pub has_column : List String → String → Bool
has_column columns c = any (λ d. d === c) columns

-- A checkbox of PropertyPanel: showing a column sorts the list as `ALL_COLUMNS`, hiding one filters
-- it.
unfoldable pub toggle_column : String → Bool → List String → List String
toggle_column column true columns = filter (λ c. c === column || has_column columns c) all_columns
toggle_column column false columns = filter (λ c. not (c === column)) columns
