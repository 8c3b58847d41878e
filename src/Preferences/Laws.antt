-- ===== src/Preferences/Laws.antt =====
-- What the preferences keep: what was set is read back, and the attributes tell every setting.
use billgen.Prelude.{
  String, true, false, not, List, [], ◌∷◌, Option, none, some, ◌≡◌, refl, ap, ◌∙◌, ◌===◌,
  if◌then◌else◌, filter, eq_iff, arith,
}
use billgen.Json.{Json, text}
use billgen.Preferences.{
  Density, compact, comfortable, spacious, TextSize, small, medium, large, ContainerWidth, fluid,
  boxed, Appearance, stored_appearance, as_json, read_parsed, read_density, read_size, read_width,
  default_appearance, attribute, set_attribute, apply_appearance, unless_default, density_name,
  size_name, width_name, motion_value, glass_value, Patch, patched, Screen, update,
}

read_density-name : (d : Density) → read_density (some (text (density_name d))) ≡ d
read_density-name compact = refl
read_density-name comfortable = refl
read_density-name spacious = refl

read_size-name : (z : TextSize) → read_size (some (text (size_name z))) ≡ z
read_size-name small = refl
read_size-name medium = refl
read_size-name large = refl

read_width-name : (w : ContainerWidth) → read_width (some (text (width_name w))) ≡ w
read_width-name fluid = refl
read_width-name boxed = refl

read_parsed-as_json : (a : Appearance) → read_parsed (some (as_json a)) ≡ a
read_parsed-as_json a = λ i. record {
  density = read_density-name a.density i;
  text_size = read_size-name a.text_size i;
  container_width = read_width-name a.container_width i;
  reduced_motion = a.reduced_motion;
  translucency = a.translucency;
}

attribute-filter :
    (name : String) (root : List (String × String)) (k : String)
    → attribute k (filter (λ a. not (a.0 === name)) root)
      ≡ (if k === name then none else attribute k root)
attribute-filter name [] k = ground arith
attribute-filter name ((j, v) ∷ root) k =
    ground (arith, eq_iff j name, eq_iff j k, eq_iff k name, attribute-filter name root k)

attribute-set_attribute :
    (name : String) (v : Option String) (root : List (String × String)) (k : String)
    → attribute k (set_attribute name v root) ≡ (if k === name then v else attribute k root)
unfolding set_attribute
attribute-set_attribute name none root k = attribute-filter name root k
attribute-set_attribute name (some v) root k =
    ground (arith, eq_iff name k, eq_iff k name, attribute-filter name root k)

-- What `applyAppearance` leaves in an attribute of the root element.
abbrev pub shown : Appearance → String → Option String → Option String
shown a k before =
    if k === "data-bg-glass"
    then glass_value a.translucency
    else if k === "data-bg-motion"
    then motion_value a.reduced_motion
    else if k === "data-bg-width"
    then unless_default "fluid" (width_name a.container_width)
    else if k === "data-bg-text"
    then unless_default "medium" (size_name a.text_size)
    else if k === "data-bg-density"
    then unless_default "comfortable" (density_name a.density)
    else before

-- Applying an appearance decides its five attributes, whatever they were before, a default by the
-- attribute's absence, and leaves every other attribute of the root element as it was.
apply_appearance_lem :
    (a : Appearance) (root : List (String × String)) (k : String)
    → attribute k (apply_appearance a root) ≡ shown a k (attribute k root)
unfolding apply_appearance
apply_appearance_lem a root k = simp attribute-set_attribute

-- After a change, the appearance that the next start reads from localStorage is the one on the screen,
-- provided that localStorage can be written and that JSON.parse undoes JSON.stringify on what is
-- written, whose text is not empty.
pub stored_appearance-update :
    (parse : String → Option Json) (stringify : Json → String) (p : Patch) (s : Screen)
    → parse (stringify (as_json (patched p s.appearance))) ≡ some (as_json (patched p s.appearance))
    → (stringify (as_json (patched p s.appearance)) === "") ≡ false
    → s.writable ≡ true
    → stored_appearance parse (update stringify p s).storage ≡ (update stringify p s).appearance
unfolding stored_appearance update
stored_appearance-update parse stringify p s undoes full writable =
    let next = patched p s.appearance in
    ap (λ b. stored_appearance parse (if b then some (stringify (as_json next)) else s.storage))
      writable
    ∙ ap (λ b. if b then default_appearance else read_parsed (parse (stringify (as_json next))))
        full
    ∙ ap read_parsed undoes
    ∙ read_parsed-as_json next
