-- ===== src/Translations/Scenarios.antt =====
-- The theorem on the labels, over a table of two messages.
use Prim.Native.Char.{Char, code}
use Prim.Native.String.{String, [], ◌∷◌}
use mathlib.Core.Option.{Option, none, some}
use mathlib.Core.Path.{◌≡◌, refl, subst}
use mathlib.Core.Bool.{Bool, true, false, ◌||◌}
use text.Mathlib.TextEquality.{eq_iff}
use mathlib.Core.Logic.{inl, inr}
use billgen.Prelude.{◌===◌, ◌==◌, if◌then◌else◌, Bool-cases}
use billgen.Translations.{
  nl, Entry, shows, undefined, not_text, message, t, nav_label, status_label, t_peppol_error,
  t_vat_reason, t_audit_action, t_wire, spaced, capitalised,
}
use billgen.Translations.Seen.{is_seen, has_dot}
use billgen.Translations.Named.{IsNamed, IsEntry, IsWritten, labels-AreNamed}

abbrev issued : Entry
issued = record {
  english = "Issued";
  french = some "Émise";
  dutch = none;
  spanish = some "Emitida";
}

abbrev two_messages : String → Option Entry
two_messages key = if key === "status.issued" then some issued else none

issued-IsWritten : IsWritten issued
issued-IsWritten = record { english_in = refl; french_in = refl; dutch_in = tt; spanish_in = refl }

two_messages-IsEntry : (key : String) → IsEntry (two_messages key)
two_messages-IsEntry key = elim (Bool-cases (key === "status.issued")) [
  | inl e ↦ simp e issued-IsWritten
  | inr e ↦ simp e tt
]

abbrev of_every_object : String → Bool
of_every_object key = key === "constructor" || key === "valueOf"

of_every_object-dotless : (key : String) → has_dot key ≡ true → of_every_object key ≡ false
of_every_object-dotless key h = elim (Bool-cases (key === "constructor")) [
  | inl e ↦ cc (subst (λ s. has_dot s ≡ true) ((eq_iff key "constructor").0 e) h)
  | inr e ↦ elim (Bool-cases (key === "valueOf")) [
    | inl f ↦ cc (subst (λ s. has_dot s ≡ true) ((eq_iff key "valueOf").0 f) h)
    | inr f ↦ simp (e, f) refl
  ]
]

abbrev as_is : Char → String
as_is c = c ∷ []

as_is-is_seen : (c : Char) → (code c == 32) ≡ false → is_seen (as_is c) ≡ true
as_is-is_seen c h = simp h refl

-- The Dutch of the message is missing, so the English stands in for it.
issued_test : status_label two_messages of_every_object nl "issued" ≡ shows "Issued"
unfolding status_label t message
issued_test = refl

tier_test :
    t_wire two_messages of_every_object nl as_is "tier" "business_pro" ≡ shows "business pro"
unfolding t_wire spaced capitalised message
tier_test = refl

-- A name that every object inherits, and a word of underscores.
constructor_test :
    (t_vat_reason two_messages of_every_object nl "constructor" ≡ undefined)
    × (status_label two_messages of_every_object nl "constructor" ≡ not_text)
    × (t_wire two_messages of_every_object nl as_is "tier" "_" ≡ shows " ")
unfolding t_vat_reason status_label t_wire spaced capitalised message
constructor_test = (refl, refl, refl)

labels-AreNamed_example :
    IsNamed (nav_label two_messages of_every_object nl "issued")
    × IsNamed (status_label two_messages of_every_object nl "issued")
    × IsNamed (t_peppol_error two_messages of_every_object nl "issued")
    × IsNamed (t_vat_reason two_messages of_every_object nl "issued")
    × IsNamed (t_audit_action two_messages of_every_object nl "issued")
    × IsNamed (t_wire two_messages of_every_object nl as_is "tier" "issued")
labels-AreNamed_example =
    labels-AreNamed two_messages of_every_object two_messages-IsEntry of_every_object-dotless nl
      as_is "tier" "issued" as_is-is_seen refl refl
