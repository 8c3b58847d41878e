-- ===== src/Workspace/Template/Wire.antt =====
-- The wire shape of a template: `toStudio` and `fromStudio` of
-- frontend-react/src/shell/TemplateStudioScreen.tsx. The keys of the stored appearance may be missing
-- or null. The cast of the blocks, which are the same JSON on both sides, is the identity.
use billgen.Prelude.{ℕ, String, Bool, List, [], ◌∷◌, Option, none, some, ◌≡◌, refl, ap, sym, ◌∙◌}
use billgen.Workspace.Template.Schema.{
  Density, TemplateBlock, FontChoice, PageSize, Margins, TemplateAppearance, InvoiceTemplate,
}
use billgen.Workspace.Template.Defaults.{default_appearance, default_blocks}

pub record WireAppearance : Type 0 where
  pub brand_color : Option String
  pub text_token : Option String
  pub border_token : Option String
  pub font_family : Option FontChoice
  pub body_size_pt : Option ℕ
  pub heading_size_pt : Option ℕ
  pub page_size : Option PageSize
  pub margins : Option Margins
  pub density : Option Density

pub record TemplateRow : Type 0 where
  pub id : String
  pub name : String
  pub is_default : Bool
  pub published_version : Option ℕ
  pub blocks : List TemplateBlock
  pub appearance : WireAppearance

pub record TemplateUpdate : Type 0 where
  pub name : String
  pub blocks : List TemplateBlock
  pub appearance : WireAppearance

-- `value ?? base`.
abbrev or_base : {A : Type 0} → Option A → A → A
or_base none base = base
or_base (some v) base = v

abbrev blocks_or : List TemplateBlock → List TemplateBlock → List TemplateBlock
blocks_or [] base = base
blocks_or (b ∷ bs) base = b ∷ bs

unfoldable pub appearance_from : WireAppearance → TemplateAppearance → TemplateAppearance
appearance_from a base = record {
  brand = record {
    color = or_base a.brand_color base.brand.color;
    text_token = or_base a.text_token base.brand.text_token;
    border_token = or_base a.border_token base.brand.border_token;
  };
  typography = record {
    font_family = or_base a.font_family base.typography.font_family;
    body_size_pt = or_base a.body_size_pt base.typography.body_size_pt;
    heading_size_pt = or_base a.heading_size_pt base.typography.heading_size_pt;
  };
  page = record {
    size = or_base a.page_size base.page.size;
    margins = or_base a.margins base.page.margins;
    density = or_base a.density base.page.density;
  };
}

unfoldable pub to_studio : String → TemplateRow → InvoiceTemplate
unfolding appearance_from
to_studio now row = record {
  id = row.id;
  name = row.name;
  is_default = row.is_default;
  published_version = or_base row.published_version 0;
  updated_at = now;
  blocks = blocks_or row.blocks default_blocks;
  appearance = appearance_from row.appearance default_appearance;
}

unfoldable pub from_studio : InvoiceTemplate → TemplateUpdate
from_studio t = record {
  name = t.name;
  blocks = t.blocks;
  appearance = record {
    brand_color = some t.appearance.brand.color;
    text_token = some t.appearance.brand.text_token;
    border_token = some t.appearance.brand.border_token;
    font_family = some t.appearance.typography.font_family;
    body_size_pt = some t.appearance.typography.body_size_pt;
    heading_size_pt = some t.appearance.typography.heading_size_pt;
    page_size = some t.appearance.page.size;
    margins = some t.appearance.page.margins;
    density = some t.appearance.page.density;
  };
}

-- A row of the server that has taken an update: the update's content, and the rest as it was.
pub record IsStored (u : TemplateUpdate) (row stored : TemplateRow) : Type 0 where
  pub name_in : stored.name ≡ u.name
  pub blocks_in : stored.blocks ≡ u.blocks
  pub appearance_in : stored.appearance ≡ u.appearance
  pub id_in : stored.id ≡ row.id
  pub is_default_in : stored.is_default ≡ row.is_default
  pub published_version_in : stored.published_version ≡ row.published_version

-- The version that a row stands at; a template that was never published is at 0.
abbrev pub version_of : Option ℕ → ℕ
version_of none = 0
version_of (some v) = v

version_of-or_base : (o : Option ℕ) → or_base o 0 ≡ version_of o
version_of-or_base none = refl
version_of-or_base (some v) = refl

-- What is read back of a template that has a block.
stored-template :
    (now : String) (row stored : TemplateRow) (t : InvoiceTemplate) (b : TemplateBlock)
    (bs : List TemplateBlock)
    → t.blocks ≡ b ∷ bs
    → IsStored (from_studio t) row stored
    → to_studio now stored ≡ record t {
      id = row.id;
      is_default = row.is_default;
      published_version = version_of row.published_version;
      updated_at = now;
    }
unfolding to_studio from_studio appearance_from
stored-template now row stored t b bs e h =
    rw
      (
        h.name_in,
        h.blocks_in,
        h.appearance_in,
        h.id_in,
        h.is_default_in,
        h.published_version_in,
        e,
        version_of-or_base row.published_version,
      )
      refl

first_block :
    (bs : List TemplateBlock)
    → (b : TemplateBlock) × (rest : List TemplateBlock) × (blocks_or bs default_blocks ≡ b ∷ rest)
unfolding default_blocks
first_block [] = (_, _, refl)
first_block (b ∷ bs) = (b, bs, refl)

has_block :
    (now : String) (row : TemplateRow)
    → (b : TemplateBlock) × (bs : List TemplateBlock) × ((to_studio now row).blocks ≡ b ∷ bs)
unfolding to_studio
has_block now row = first_block row.blocks

-- Where the server keeps an update as it was sent: a template that has a block and is saved comes
-- back as it was, in its name, its blocks and every setting of its appearance, with the identity and
-- the version of its row. And a row that is opened, saved and opened again gives the same template but
-- for the time of opening, also where it had no blocks or lacked settings, which the defaults had
-- filled.
pub to_studio-from_studio :
    (earlier now : String) (row stored again : TemplateRow) (t : InvoiceTemplate)
    (b : TemplateBlock) (bs : List TemplateBlock)
    → t.blocks ≡ b ∷ bs
    → IsStored (from_studio t) row stored
    → IsStored (from_studio (to_studio earlier row)) row again
    → (to_studio now stored ≡ record t {
      id = row.id;
      is_default = row.is_default;
      published_version = version_of row.published_version;
      updated_at = now;
    })
      × (to_studio now again ≡ record (to_studio earlier row) { updated_at = now })
unfolding to_studio
to_studio-from_studio earlier now row stored again t b bs e h k =
    let (c, cs, f) = has_block earlier row in
    (
      stored-template now row stored t b bs e h,
      stored-template now row again (to_studio earlier row) c cs f k
          ∙ ap
              (λ (n : ℕ). record (to_studio earlier row) {
                published_version = n;
                updated_at = now;
              })
              (sym (version_of-or_base row.published_version)),
    )
