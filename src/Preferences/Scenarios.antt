-- ===== src/Preferences/Scenarios.antt =====
-- The preferences at concrete inputs.
use billgen.Prelude.{
  String, true, false, [], ◌∷◌, Option, none, some, ◌≡◌, refl, ◌===◌, if◌then◌else◌,
}
use billgen.Json.{Json}
use billgen.Preferences.{
  Appearance, default_appearance, spacious, large, Patch, Screen, as_json, attribute,
  apply_appearance, set_attribute, stored_appearance, update,
}
use billgen.Preferences.Laws.{stored_appearance-update}

abbrev roomy : Appearance
roomy = record default_appearance { density = spacious; translucency = false }

removed_test :
    attribute "data-bg-text" (apply_appearance roomy (("data-bg-text", "large") ∷ [])) ≡ none
unfolding apply_appearance set_attribute
removed_test = refl

abbrev bigger : Patch
bigger = record {
  density = none;
  text_size = some large;
  container_width = none;
  reduced_motion = none;
  translucency = none;
}

abbrev fresh : Screen
fresh = record { appearance = roomy; root = []; storage = none; writable = true }

-- One text stands for the one value that is written.
abbrev stringify : Json → String
stringify v = "written"

abbrev parse : String → Option Json
parse s = if s === "written" then some (as_json (record roomy { text_size = large })) else none

stored_appearance-update_example :
    stored_appearance parse (update stringify bigger fresh).storage
    ≡ (update stringify bigger fresh).appearance
stored_appearance-update_example =
    stored_appearance-update parse stringify bigger fresh refl refl refl
