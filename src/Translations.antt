-- ===== src/Translations.antt =====
-- The lookups of frontend-react/src/lib/translations.ts. The table of messages is a parameter, and so are
-- the names that every object inherits from the platform's `Object.prototype`.
mod Seen
pub mod Named
mod Scenarios
use Prim.Native.Char.{Char, code}
use Prim.Native.String.{String, [], ◌∷◌, ◌++◌}
use text.Mathlib.Text.{starts_with}
use mathlib.Core.Bool.{Bool, true, false, ◌||◌}
use mathlib.Core.Option.{Option, none, some}
use billgen.Prelude.{ℕ, zero, suc, ◌===◌, ◌==◌, if◌then◌else◌}

pub data Lang : Type 0 where
  en fr nl es : Lang

unfoldable pub is_lang : Option String → Bool
is_lang none = false
is_lang (some v) = v === "en" || v === "fr" || v === "nl" || v === "es"

-- A message; English is always there.
pub record Entry : Type 0 where
  pub english : String
  pub french : Option String
  pub dutch : Option String
  pub spanish : Option String

abbrev pub or_english : Entry → Option String → String
or_english e none = e.english
or_english e (some s) = s

abbrev pub in_lang : Lang → Entry → String
in_lang en e = e.english
in_lang fr e = or_english e e.french
in_lang nl e = or_english e e.dutch
in_lang es e = or_english e e.spanish

-- What an object has under a name: a value of its own, what every object inherits, or nothing.
pub data Found (A : Type 0) : Type 0 where
  own : A → Found A
  inherited absent : Found A

-- A label: a text, `undefined`, or a value that is no text.
pub data Label : Type 0 where
  shows : String → Label
  undefined not_text : Label

-- The text of a message, or what stands in for it; what is inherited has no text in any language.
abbrev pub message_or : Lang → Label → Found Entry → Label
message_or lang other (own e) = shows (in_lang lang e)
message_or lang other inherited = undefined
message_or lang other absent = other

-- The rows of an object, and what it inherits.
abbrev pub look_up : {A : Type 0} → (String → Bool) → (String → Option A) → String → Found A
look_up inherits table key = elim (table key) [
  | some a ↦ own a
  | none ↦ if inherits key then inherited else absent
]

abbrev pub section_title : String → Option String
section_title key =
    if key === "dashboard"
    then some "dashboard.title"
    else if key === "settings"
    then some "settings.title"
    else none

abbrev pub status_key : String → Option String
status_key status =
    if status === "draft"
    then some "history.draft"
    else if status === "issued"
    then some "status.issued"
    else if status === "paid"
    then some "history.paidStamp"
    else if status === "partially_paid"
    then some "status.partially_paid"
    else if status === "overdue"
    then some "history.overdue"
    else if status === "voided"
    then some "history.voided"
    else none

-- `value.slice(n)`
abbrev pub slice_from : ℕ → String → String
slice_from n [] = []
slice_from zero (c ∷ s) = c ∷ s
slice_from (suc n) (c ∷ s) = slice_from n s

-- `value.replace(/_/g, " ")`
unfoldable pub spaced : String → String
spaced [] = []
spaced (c ∷ s) = let rest = spaced s in if code c == 95 then " " ++ rest else c ∷ rest

-- `upper` is the platform's `toUpperCase` of a character.
unfoldable pub capitalised : (Char → String) → String → String
capitalised upper [] = []
capitalised upper (c ∷ s) = upper c ++ s

module _ (messages : String → Option Entry) (inherits : String → Bool) (lang : Lang) where
  unfoldable pub message : String → Found Entry
  message key = look_up inherits messages key

  unfoldable pub t : String → Label
  t key = message_or lang (shows key) (message key)

  -- `title ? t(lang, title) : other`: what is inherited is truthy and no key
  -- of a message, so `t` gives it back.
  abbrev pub titled : Label → Found String → Label
  titled other (own key) = t key
  titled other inherited = not_text
  titled other absent = other

  abbrev pub nav_name : String → Label
  nav_name key = message_or lang (shows key) (message ("nav." ++ key))

  abbrev pub settings_name : String → Label
  settings_name key =
      message_or lang (nav_name key) (message ("settings.label." ++ slice_from 9 key))

  unfoldable pub nav_label : String → Label
  nav_label key =
      titled (if starts_with "settings." key then settings_name key else nav_name key)
        (look_up inherits section_title key)

  unfoldable pub status_label : String → Label
  status_label status = titled (shows status) (look_up inherits status_key status)

  unfoldable pub t_peppol_error : String → Label
  t_peppol_error key = message_or lang (shows key) (message ("peppol." ++ key))

  unfoldable pub t_vat_reason : String → Label
  t_vat_reason reason = message_or lang (shows reason) (message reason)

  unfoldable pub t_audit_action : String → Label
  t_audit_action action = message_or lang (shows action) (message ("audit." ++ action))

  -- `tWire`, which tEntity, tField, tSubscriptionStatus, tTier, tMeter, tFeature and tLevel call with
  -- their own prefix.
  unfoldable pub t_wire : (Char → String) → String → String → Label
  t_wire upper prefix value =
      message_or lang (shows (capitalised upper (spaced value)))
        (message (prefix ++ ("." ++ value)))
