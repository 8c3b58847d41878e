-- ===== src/Workspace/Template/Schema.antt =====
-- frontend-react/src/workspace/templateSchema.ts. The time of day is an argument.
use billgen.Prelude.{ℕ, String, Bool, List, [], ◌∷◌, Option, none, some, ◌===◌, if◌then◌else◌, any}

pub data BlockKind : Type 0 where
  header parties document_meta items totals payment notes terms footer : BlockKind

pub data Alignment : Type 0 where
  start center end : Alignment

pub data Density : Type 0 where
  compact comfortable spacious : Density

pub record HeaderProperties : Type 0 where
  pub show_logo : Bool
  pub show_company_name : Bool
  pub show_company_contact : Bool
  pub document_title : String
  pub alignment : Alignment

pub record PartiesProperties : Type 0 where
  pub show_seller_address : Bool
  pub show_seller_vat : Bool
  pub show_customer_vat : Bool
  pub customer_alignment : Alignment

pub data MetaField : Type 0 where
  reference issue_date due_date customer_reference payment_terms : MetaField

pub data ItemColumn : Type 0 where
  description quantity unit unit_price discount vat total : ItemColumn

pub data VatDisplay : Type 0 where
  percentage percentage_and_amount amount : VatDisplay

-- `columns` holds the keys as the texts that they are at run time: a starter model may hold one that
-- is no `ItemColumn`, since the overrides of a model are not typed.
pub record ItemsProperties : Type 0 where
  pub columns : List String
  pub decimals : ℕ
  pub vat_display : VatDisplay
  pub show_line_discount : Bool

pub record TotalsProperties : Type 0 where
  pub show_subtotal : Bool
  pub show_discount : Bool
  pub show_vat_summary : Bool
  pub show_amount_due : Bool

pub record PaymentProperties : Type 0 where
  pub show_iban : Bool
  pub show_bic : Bool
  pub show_structured_communication : Bool
  pub show_payment_terms : Bool
  pub show_qr_code : Bool

pub record TextBlockProperties : Type 0 where
  pub body : String

pub record FooterProperties : Type 0 where
  pub body : String
  pub show_page_numbers : Bool
  pub show_billgen_branding : Bool

pub data BlockProperties : Type 0 where
  of_header : HeaderProperties → BlockProperties
  of_parties : PartiesProperties → BlockProperties
  of_document_meta : List MetaField → BlockProperties
  of_items : ItemsProperties → BlockProperties
  of_totals : TotalsProperties → BlockProperties
  of_payment : PaymentProperties → BlockProperties
  of_notes : TextBlockProperties → BlockProperties
  of_terms : TextBlockProperties → BlockProperties
  of_footer : FooterProperties → BlockProperties

-- The tag of the union.
abbrev pub kind_of : BlockProperties → BlockKind
kind_of (of_header p) = header
kind_of (of_parties p) = parties
kind_of (of_document_meta p) = document_meta
kind_of (of_items p) = items
kind_of (of_totals p) = totals
kind_of (of_payment p) = payment
kind_of (of_notes p) = notes
kind_of (of_terms p) = terms
kind_of (of_footer p) = footer

pub record TemplateBlock : Type 0 where
  pub id : String
  pub visible : Bool
  pub properties : BlockProperties

abbrev pub kind : TemplateBlock → BlockKind
kind b = kind_of b.properties

-- The value of a `BlockKind`, which is a text.
abbrev pub kind_name : BlockKind → String
kind_name header = "header"
kind_name parties = "parties"
kind_name document_meta = "document_meta"
kind_name items = "items"
kind_name totals = "totals"
kind_name payment = "payment"
kind_name notes = "notes"
kind_name terms = "terms"
kind_name footer = "footer"

pub data FontChoice : Type 0 where
  satoshi geist_mono helvetica georgia times_new_roman verdana : FontChoice

pub data PageSize : Type 0 where
  a4 letter : PageSize

pub data Margins : Type 0 where
  narrow standard wide : Margins

pub record Brand : Type 0 where
  pub color : String
  pub text_token : String
  pub border_token : String

pub record Typography : Type 0 where
  pub font_family : FontChoice
  pub body_size_pt : ℕ
  pub heading_size_pt : ℕ

pub record Page : Type 0 where
  pub size : PageSize
  pub margins : Margins
  pub density : Density

pub record TemplateAppearance : Type 0 where
  pub brand : Brand
  pub typography : Typography
  pub page : Page

pub record InvoiceTemplate : Type 0 where
  pub id : String
  pub name : String
  pub is_default : Bool
  pub blocks : List TemplateBlock
  pub appearance : TemplateAppearance
  pub published_version : ℕ
  pub updated_at : String

pub record TemplateSnapshot : Type 0 where
  pub template_id : String
  pub template_name : String
  pub version : ℕ
  pub taken_at : String
  pub blocks : List TemplateBlock
  pub appearance : TemplateAppearance

-- `ITEM_COLUMN_LABELS[column]`: none is `undefined`.
unfoldable pub item_column_label : String → Option String
item_column_label column =
    if column === "description"
    then some "Description"
    else if column === "quantity"
    then some "Quantity"
    else if column === "unit"
    then some "Unit"
    else if column === "unit_price"
    then some "Unit price"
    else if column === "discount"
    then some "Discount"
    else if column === "vat"
    then some "VAT"
    else if column === "total"
    then some "Total"
    else none

abbrev pub block_label : BlockKind → String
block_label header = "Header"
block_label parties = "Customer & seller"
block_label document_meta = "Invoice information"
block_label items = "Items"
block_label totals = "Totals"
block_label payment = "Payment"
block_label notes = "Notes"
block_label terms = "Terms & conditions"
block_label footer = "Footer"

abbrev pub required_blocks : List BlockKind
required_blocks = header ∷ parties ∷ document_meta ∷ items ∷ totals ∷ []

abbrev pub includes : List BlockKind → BlockKind → Bool
includes ks k = any (λ j. kind_name j === kind_name k) ks

abbrev pub required : BlockKind → Bool
required k = includes required_blocks k
