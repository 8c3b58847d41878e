-- ===== src/Detail/Download.antt =====
-- The download of frontend-react/src/panels/InvoiceDetailPanel.tsx, and `saveBlob` of
-- frontend-react/src/lib/download.ts.
use billgen.Prelude.{
  String, Bool, true, false, not, ◌&&◌, List, [], ◌∷◌, ◌++◌, Option, none, some, ◌===◌,
  if◌then◌else◌,
}
use billgen.Client.Calls.Sales.{InvoiceCall, invoice_pdf, invoice_peppol_xml}
use billgen.Detail.{InvoiceResponse, Detail, is_final}
use billgen.Detail.Filename.{document_filename, draft_name}

-- How the browser's save dialog ends, where it has one.
pub data Picker : Type 0 where
  absent written aborted broken : Picker

-- Whether the document is saved, and whether the anchor saves it.
pub record Saving : Type 0 where
  pub saved : Bool
  pub by_anchor : Bool

unfoldable pub save_blob : Picker → Saving
save_blob absent = record { saved = true; by_anchor = true }
save_blob written = record { saved = true; by_anchor = false }
save_blob aborted = record { saved = false; by_anchor = false }
save_blob broken = record { saved = true; by_anchor = true }

pub data Kind : Type 0 where
  pdf xml : Kind

abbrev pub extension : Kind → String
extension pdf = "pdf"
extension xml = "xml"

-- How the call ends: with a document, with the message keys of an ApiError, or with another error.
pub data Answer : Type 0 where
  blob : Picker → Answer
  api_error : List String → Answer
  other_error : Answer

abbrev pub download_call : Kind → String → InvoiceCall
download_call pdf id = invoice_pdf id none
download_call xml id = invoice_peppol_xml id

abbrev pub reference_of : InvoiceResponse → Option String → String
reference_of r none = draft_name r.id
reference_of r (some reference) = reference

unfoldable pub filename_of : Kind → InvoiceResponse → String
filename_of kind r = document_filename (reference_of r r.reference) (extension kind)

abbrev pub is_downloading : Kind → Option String → Bool
is_downloading kind none = false
is_downloading kind (some k) = k === extension kind

-- Whether the button of a download is there and enabled.
unfoldable pub can_download : Kind → InvoiceResponse → Detail → Bool
can_download pdf r s = not (is_downloading pdf s.downloading)
can_download xml r s = is_final r.status && not (is_downloading xml s.downloading)

-- What `download` does before its call.
unfoldable pub start : Kind → Detail → Detail
start kind s = record s {
  downloading = some (extension kind);
  download_failed = false;
  saved_file = none;
  peppol_errors = [];
}

abbrev pub failing : List String → Detail → Detail
failing [] s = record s { download_failed = true }
failing (key ∷ keys) s = record s { peppol_errors = key ∷ keys }

abbrev pub saving : String → Saving → Detail → Detail
saving filename r s = if r.saved then record s { saved_file = some filename } else s

-- What it does after it, the `finally` included.
unfoldable pub finish : String → Answer → Detail → Detail
unfolding save_blob
finish filename (blob p) s = record (saving filename (save_blob p) s) { downloading = none }
finish filename (api_error keys) s = record (failing keys s) { downloading = none }
finish filename other_error s = record s { download_failed = true; downloading = none }

-- Whether the audit entries are asked for again.
abbrev pub refetches : Answer → Bool
refetches (blob p) = true
refetches _ = false

-- The banners above the invoice.
pub data Banner : Type 0 where
  failure : Banner
  blocked : List String → Banner
  saved_as : String → Banner

abbrev pub failure_banner : Bool → List Banner
failure_banner true = failure ∷ []
failure_banner false = []

abbrev pub blocked_banner : List String → List Banner
blocked_banner [] = []
blocked_banner (key ∷ keys) = blocked (key ∷ keys) ∷ []

-- A text that is empty is falsy.
abbrev pub saved_banner : Option String → List Banner
saved_banner none = []
saved_banner (some name) = if name === "" then [] else saved_as name ∷ []

unfoldable pub banners : Detail → List Banner
banners s =
    failure_banner s.download_failed
    ++ (blocked_banner s.peppol_errors ++ saved_banner s.saved_file)

-- What a download shows when it has ended.
abbrev pub outcome : String → Answer → List Banner
outcome filename (blob aborted) = []
outcome filename (blob p) = saved_as filename ∷ []
outcome filename (api_error []) = failure ∷ []
outcome filename (api_error (key ∷ keys)) = blocked (key ∷ keys) ∷ []
outcome filename other_error = failure ∷ []
