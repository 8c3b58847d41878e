-- ===== src/Detail/Outcome.antt =====
-- How a download of frontend-react/src/panels/InvoiceDetailPanel.tsx ends.
use billgen.Prelude.{String, true, false, [], ◌∷◌, none, some, ◌===◌, ◌≡◌, refl}
use billgen.Detail.{InvoiceResponse, Detail}
use billgen.Detail.Filename.{is_legal, document_filename-legal, document_filename-named}
use billgen.Detail.Download.{
  Kind, pdf, xml, reference_of, absent, written, aborted, broken, Answer, blob, api_error,
  other_error, filename_of, start, finish, save_blob, outcome, banners, saved_as, saved_banner,
}

filename_of-legal : (kind : Kind) (r : InvoiceResponse) → is_legal (filename_of kind r) ≡ true
unfolding filename_of
filename_of-legal pdf r = document_filename-legal (reference_of r r.reference) "pdf" refl
filename_of-legal xml r = document_filename-legal (reference_of r r.reference) "xml" refl

filename_of-named : (kind : Kind) (r : InvoiceResponse) → (filename_of kind r === "") ≡ false
unfolding filename_of
filename_of-named pdf r = document_filename-named (reference_of r r.reference) "pdf"
filename_of-named xml r = document_filename-named (reference_of r r.reference) "xml"

saved-named :
    (name : String) → (name === "") ≡ false → saved_banner (some name) ≡ (saved_as name ∷ [])
saved-named name h = simp h

finish-banners :
    (kind : Kind) (name : String) (a : Answer) (s : Detail)
    → (name === "") ≡ false
    → banners (finish name a (start kind s)) ≡ outcome name a
unfolding banners finish start save_blob
finish-banners kind name (blob absent) s h = saved-named name h
finish-banners kind name (blob written) s h = saved-named name h
finish-banners kind name (blob aborted) s h = refl
finish-banners kind name (blob broken) s h = saved-named name h
finish-banners kind name (api_error []) s h = refl
finish-banners kind name (api_error (key ∷ keys)) s h = refl
finish-banners kind name other_error s h = refl

finish-downloading :
    (name : String) (a : Answer) (s : Detail) → (finish name a s).downloading ≡ none
unfolding finish save_blob
finish-downloading name (blob p) s = refl
finish-downloading name (api_error keys) s = refl
finish-downloading name other_error s = refl

-- A download that has ended, whatever the panel showed before: its button is enabled again, one
-- banner at most is shown, which says that the document is saved, that the call has failed, or what
-- the API has against the document, and none where the user has cancelled; the name that the document
-- is saved by has none of the characters that a file's name may not have.
pub finish-outcome :
    (kind : Kind) (r : InvoiceResponse) (a : Answer) (s : Detail)
    → ((finish (filename_of kind r) a (start kind s)).downloading ≡ none)
      × (banners (finish (filename_of kind r) a (start kind s)) ≡ outcome (filename_of kind r) a)
      × (is_legal (filename_of kind r) ≡ true)
finish-outcome kind r a s = (
  finish-downloading (filename_of kind r) a (start kind s),
  finish-banners kind (filename_of kind r) a s (filename_of-named kind r),
  filename_of-legal kind r,
)
