-- ===== src/Preferences.antt =====
-- The appearance preferences of frontend-react/src/lib/preferences.ts: what localStorage holds, the
-- attributes of the root element that the stylesheets read, and the hook that changes both. JSON.parse
-- and JSON.stringify are the parameters `parse` (none where it throws) and `stringify`.
pub mod Laws
mod Scenarios
use billgen.Prelude.{
  String, Bool, true, false, not, List, [], ◌∷◌, Option, none, some, ◌===◌, if◌then◌else◌, filter,
}
use billgen.Json.{Json, null, bool, text, obj, end, field, property}

pub data Density : Type 0 where
  compact comfortable spacious : Density

pub data TextSize : Type 0 where
  small medium large : TextSize

pub data ContainerWidth : Type 0 where
  fluid boxed : ContainerWidth

pub record Appearance : Type 0 where
  pub density : Density
  pub text_size : TextSize
  pub container_width : ContainerWidth
  pub reduced_motion : Bool
  pub translucency : Bool

abbrev pub default_appearance : Appearance
default_appearance = record {
  density = comfortable;
  text_size = medium;
  container_width = fluid;
  reduced_motion = false;
  translucency = true;
}

abbrev pub density_name : Density → String
density_name compact = "compact"
density_name comfortable = "comfortable"
density_name spacious = "spacious"

abbrev pub size_name : TextSize → String
size_name small = "small"
size_name medium = "medium"
size_name large = "large"

abbrev pub width_name : ContainerWidth → String
width_name fluid = "fluid"
width_name boxed = "boxed"

-- A field of the parsed value where it is one of the known texts, and the default otherwise.
abbrev pub read_density : Option Json → Density
read_density (some (text s)) =
    if s === "compact" then compact else if s === "spacious" then spacious else comfortable
read_density _ = comfortable

abbrev pub read_size : Option Json → TextSize
read_size (some (text s)) = if s === "small" then small else if s === "large" then large else medium
read_size _ = medium

abbrev pub read_width : Option Json → ContainerWidth
read_width (some (text s)) = if s === "boxed" then boxed else fluid
read_width _ = fluid

abbrev read_flag : Bool → Option Json → Bool
read_flag otherwise (some (bool b)) = b
read_flag otherwise _ = otherwise

abbrev pub read_parsed : Option Json → Appearance
read_parsed none = default_appearance
read_parsed (some null) = default_appearance
read_parsed (some v) = record {
  density = read_density (property "density" v);
  text_size = read_size (property "textSize" v);
  container_width = read_width (property "containerWidth" v);
  reduced_motion = read_flag false (property "reducedMotion" v);
  translucency = read_flag true (property "translucency" v);
}

-- The item of localStorage: none where it is not set, or where reading it throws.
unfoldable pub stored_appearance : (String → Option Json) → Option String → Appearance
stored_appearance parse none = default_appearance
stored_appearance parse (some raw) =
    if raw === "" then default_appearance else read_parsed (parse raw)

abbrev pub as_json : Appearance → Json
as_json a = obj (
    field "density" (text (density_name a.density)) (
      field "textSize" (text (size_name a.text_size)) (
        field "containerWidth" (text (width_name a.container_width)) (
          field "reducedMotion" (bool a.reduced_motion)
            (field "translucency" (bool a.translucency) end)))))

abbrev pub attribute : String → List (String × String) → Option String
attribute name [] = none
attribute name ((k, v) ∷ attributes) = if k === name then some v else attribute name attributes

-- `set` of `applyAppearance`: null removes the attribute.
unfoldable pub set_attribute :
    String → Option String → List (String × String) → List (String × String)
set_attribute name none attributes = filter (λ a. not (a.0 === name)) attributes
set_attribute name (some v) attributes = (name, v) ∷ filter (λ a. not (a.0 === name)) attributes

abbrev pub unless_default : String → String → Option String
unless_default default value = if value === default then none else some value

abbrev pub motion_value : Bool → Option String
motion_value true = some "reduced"
motion_value false = none

abbrev pub glass_value : Bool → Option String
glass_value true = none
glass_value false = some "off"

unfoldable pub apply_appearance : Appearance → List (String × String) → List (String × String)
apply_appearance a root = set_attribute "data-bg-glass" (glass_value a.translucency) (
    set_attribute "data-bg-motion" (motion_value a.reduced_motion) (
      set_attribute "data-bg-width" (unless_default "fluid" (width_name a.container_width)) (
        set_attribute "data-bg-text" (unless_default "medium" (size_name a.text_size)) (
          set_attribute "data-bg-density" (unless_default "comfortable" (density_name a.density))
            root))))

-- A patch of the settings screen.
pub record Patch : Type 0 where
  pub density : Option Density
  pub text_size : Option TextSize
  pub container_width : Option ContainerWidth
  pub reduced_motion : Option Bool
  pub translucency : Option Bool

abbrev or_current : {A : Type 0} → Option A → A → A
or_current none now = now
or_current (some next) now = next

abbrev pub patched : Patch → Appearance → Appearance
patched p a = record {
  density = or_current p.density a.density;
  text_size = or_current p.text_size a.text_size;
  container_width = or_current p.container_width a.container_width;
  reduced_motion = or_current p.reduced_motion a.reduced_motion;
  translucency = or_current p.translucency a.translucency;
}

-- `writable` tells whether `setItem` succeeds.
pub record Screen : Type 0 where
  pub appearance : Appearance
  pub root : List (String × String)
  pub storage : Option String
  pub writable : Bool

unfoldable pub update : (Json → String) → Patch → Screen → Screen
update stringify p s =
    let next = patched p s.appearance in
    record s {
      appearance = next;
      root = apply_appearance next s.root;
      storage = if s.writable then some (stringify (as_json next)) else s.storage;
    }
