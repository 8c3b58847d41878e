-- ===== src/Translations/Named.antt =====
-- That no lookup of frontend-react/src/lib/translations.ts gives a blank label.
use Prim.Native.Char.{Char, code}
use Prim.Native.String.{String}
use text.Mathlib.Text.{starts_with}
use mathlib.Core.Path.{◌≡◌, refl}
use mathlib.Core.Bool.{Bool, true, false}
use mathlib.Core.Option.{Option, none, some}
use billgen.Prelude.{◌===◌, ◌==◌, if◌then◌else◌}
use billgen.Translations.Seen.{
  is_seen, has_word, has_dot, has_dot-append, has_dot-append_right, has_word-is_seen,
  spaced-is_seen, capitalised-is_seen,
}
use billgen.Translations.{
  Lang, en, fr, nl, es, Entry, or_english, in_lang, Found, own, inherited, absent, Label, shows,
  message_or, section_title, status_key, spaced, capitalised, message, t, titled, nav_name,
  settings_name, nav_label, status_label, t_peppol_error, t_vat_reason, t_audit_action, t_wire,
  slice_from,
}

-- A label is a text that can be seen.
abbrev pub IsNamed : Label → Type 0
IsNamed (shows s) = is_seen s ≡ true
IsNamed l = ⊥

abbrev pub AllSeen : Option String → Type 0
AllSeen none = Unit
AllSeen (some s) = is_seen s ≡ true

pub record IsWritten (e : Entry) : Type 0 where
  pub english_in : is_seen e.english ≡ true
  pub french_in : AllSeen e.french
  pub dutch_in : AllSeen e.dutch
  pub spanish_in : AllSeen e.spanish

abbrev pub IsEntry : Option Entry → Type 0
IsEntry none = Unit
IsEntry (some e) = IsWritten e

abbrev IsFound : Found Entry → Type 0
IsFound (own e) = IsWritten e
IsFound inherited = ⊥
IsFound absent = Unit

or_english-is_seen :
    (e : Entry) (o : Option String)
    → is_seen e.english ≡ true
    → AllSeen o
    → is_seen (or_english e o) ≡ true
or_english-is_seen e none h k = h
or_english-is_seen e (some s) h k = k

in_lang-is_seen : (lang : Lang) (e : Entry) → IsWritten e → is_seen (in_lang lang e) ≡ true
in_lang-is_seen en e h = h.english_in
in_lang-is_seen fr e h = or_english-is_seen e e.french h.english_in h.french_in
in_lang-is_seen nl e h = or_english-is_seen e e.dutch h.english_in h.dutch_in
in_lang-is_seen es e h = or_english-is_seen e e.spanish h.english_in h.spanish_in

message_or-IsNamed :
    (lang : Lang) (other : Label) (o : Found Entry)
    → IsNamed other
    → IsFound o
    → IsNamed (message_or lang other o)
message_or-IsNamed lang other (own e) h k = in_lang-is_seen lang e k
message_or-IsNamed lang other inherited h k = elim k [ ]
message_or-IsNamed lang other absent h k = h

-- A key that a table names: it can be seen, and has a dot.
abbrev IsKey : Option String → Type 0
IsKey none = Unit
IsKey (some s) = (is_seen s ≡ true) × (has_dot s ≡ true)

chosen_IsKey : (b : Bool) (a o : Option String) → IsKey a → IsKey o → IsKey (if b then a else o)
chosen_IsKey true a o h k = h
chosen_IsKey false a o h k = k

section_title-IsKey : (key : String) → IsKey (section_title key)
section_title-IsKey key =
    chosen_IsKey (key === "dashboard") (some "dashboard.title") _ (refl, refl)
      (chosen_IsKey (key === "settings") (some "settings.title") none (refl, refl) tt)

status_key-IsKey : (status : String) → IsKey (status_key status)
status_key-IsKey status =
    chosen_IsKey (status === "draft") (some "history.draft") _ (refl, refl)
      (chosen_IsKey (status === "issued") (some "status.issued") _ (refl, refl)
        (chosen_IsKey (status === "paid") (some "history.paidStamp") _ (refl, refl)
          (chosen_IsKey (status === "partially_paid") (some "status.partially_paid") _ (refl, refl)
            (chosen_IsKey (status === "overdue") (some "history.overdue") _ (refl, refl)
              (chosen_IsKey (status === "voided") (some "history.voided") none (refl, refl) tt)))))

chosen_IsNamed : (b : Bool) (a o : Label) → IsNamed a → IsNamed o → IsNamed (if b then a else o)
chosen_IsNamed true a o h k = h
chosen_IsNamed false a o h k = k

IsEntry-IsFound :
    (o : Option Entry) (i : Bool)
    → IsEntry o
    → i ≡ false
    → IsFound (elim o [ some a ↦ own a | none ↦ if i then inherited else absent ])
IsEntry-IsFound none i h k = rw k tt
IsEntry-IsFound (some e) i h k = h

module _ (messages : String → Option Entry) (inherits : String → Bool)
    (written : (key : String) → IsEntry (messages key))
    (dotless : (key : String) → has_dot key ≡ true → inherits key ≡ false) (lang : Lang) where
  message-IsFound :
      (key : String) → inherits key ≡ false → IsFound (message messages inherits lang key)
  unfolding message
  message-IsFound key h = IsEntry-IsFound (messages key) (inherits key) (written key) h

  message-IsNamed :
      (other : Label) (key : String)
      → IsNamed other
      → inherits key ≡ false
      → IsNamed (message_or lang other (message messages inherits lang key))
  message-IsNamed other key h k =
      message_or-IsNamed lang other (message messages inherits lang key) h (message-IsFound key k)

  dotted_IsNamed :
      (other : Label) (key : String)
      → IsNamed other
      → has_dot key ≡ true
      → IsNamed (message_or lang other (message messages inherits lang key))
  dotted_IsNamed other key h k = message-IsNamed other key h (dotless key k)

  t-IsNamed :
      (key : String)
      → is_seen key ≡ true
      → has_dot key ≡ true
      → IsNamed (t messages inherits lang key)
  unfolding t
  t-IsNamed key h k = dotted_IsNamed (shows key) key h k

  titled-IsNamed :
      (other : Label) (o : Option String) (i : Bool)
      → IsNamed other
      → IsKey o
      → i ≡ false
      → IsNamed (
          titled messages inherits lang other
            (elim o [ some a ↦ own a | none ↦ if i then inherited else absent ]))
  titled-IsNamed other none i h k e = rw e h
  titled-IsNamed other (some key) i h (seen, dotted) e = t-IsNamed key seen dotted

  nav_name-IsNamed :
      (key : String) → is_seen key ≡ true → IsNamed (nav_name messages inherits lang key)
  nav_name-IsNamed key h = dotted_IsNamed (shows key) _ h (has_dot-append "nav." key refl)

  settings_name-IsNamed :
      (key : String) → is_seen key ≡ true → IsNamed (settings_name messages inherits lang key)
  settings_name-IsNamed key h =
      dotted_IsNamed (nav_name messages inherits lang key) _ (nav_name-IsNamed key h)
        (has_dot-append "settings.label." (slice_from 9 key) refl)

  nav_label-IsNamed :
      (key : String)
      → is_seen key ≡ true
      → inherits key ≡ false
      → IsNamed (nav_label messages inherits lang key)
  unfolding nav_label
  nav_label-IsNamed key h k =
      titled-IsNamed
        (if starts_with "settings." key
          then settings_name messages inherits lang key
          else nav_name messages inherits lang key)
        (section_title key) (inherits key)
        (chosen_IsNamed (starts_with "settings." key) _ _ (settings_name-IsNamed key h)
          (nav_name-IsNamed key h))
        (section_title-IsKey key) k

  -- Each label is a text, and not one of spaces alone: that of a node of the navigation, a status, an
  -- error of Peppol, a VAT reason, an action of the log and a word of the server's open lists, in any
  -- language, also for a value that the table does not know. The conditions are that no message of the
  -- table is spaces alone, that no object inherits a name with a dot, that the platform's upper case of
  -- a character other than the space is not spaces alone, and that the value has more in it than spaces
  -- and underscores and is not itself a name that every object inherits.
  pub labels-AreNamed :
      (upper : Char → String) (prefix value : String)
      → ((c : Char) → (code c == 32) ≡ false → is_seen (upper c) ≡ true)
      → has_word value ≡ true
      → inherits value ≡ false
      → IsNamed (nav_label messages inherits lang value)
        × IsNamed (status_label messages inherits lang value)
        × IsNamed (t_peppol_error messages inherits lang value)
        × IsNamed (t_vat_reason messages inherits lang value)
        × IsNamed (t_audit_action messages inherits lang value)
        × IsNamed (t_wire messages inherits lang upper prefix value)
  unfolding status_label t_peppol_error t_vat_reason t_audit_action t_wire
  labels-AreNamed upper prefix value u h k =
      let seen : is_seen value ≡ true = has_word-is_seen value h in
      (
        nav_label-IsNamed value seen k,
        titled-IsNamed (shows value) (status_key value) (inherits value) seen
            (status_key-IsKey value) k,
        dotted_IsNamed (shows value) _ seen (has_dot-append "peppol." value refl),
        message-IsNamed (shows value) value seen k,
        dotted_IsNamed (shows value) _ seen (has_dot-append "audit." value refl),
        dotted_IsNamed (shows (capitalised upper (spaced value))) _
            (capitalised-is_seen upper (spaced value) u (spaced-is_seen value h))
            (has_dot-append_right prefix _ (has_dot-append "." value refl)),
      )
