-- ===== src/Workspace/Template/Studio/Steps.antt =====
-- Whatever the user does in the studio, the template stays one that can be issued.
use mathlib.Core.Path.{subst, ap₂}
use billgen.Prelude.{
  suc, String, Bool, true, false, not, ◌&&◌, ◌||◌, List, [], ◌∷◌, map, Option, none, some, ◌≡◌,
  refl, ap, sym, ◌∙◌, inl, inr, ◌===◌, if◌then◌else◌, find, any, length, eq_iff, Bool-cases,
}
use billgen.Workspace.Template.Schema.{
  TemplateBlock, kind, kind_name, kind_of, required, required_blocks, BlockProperties,
}
use billgen.Workspace.Template.Studio.{
  Studio, reorder, replace_block, set_visible, click_visible, edit_block,
}
use billgen.Workspace.Template.Studio.Legal.{
  IsLegal, is_sound, Keeps, are_legal-Keeps, and_left, is_sound-name, are_legal-replaced, find-all,
}

pub reorder-IsLegal :
    (s : Studio) (o : Option (List TemplateBlock))
    → IsLegal s
    → ((ys : List TemplateBlock) → o ≡ some ys → Keeps s.template.blocks ys)
    → IsLegal (reorder s o)
reorder-IsLegal s none v k = v
reorder-IsLegal s (some ys) v k =
    let keeps = k ys refl in
    record { legal = are_legal-Keeps keeps v.legal; fits = rw keeps.same_length v.fits }

length-map : {A B : Type 0} (f : A → B) (xs : List A) → length (map f xs) ≡ length xs
length-map f [] = refl
length-map f (x ∷ xs) = ap suc (length-map f xs)

replace_block-IsLegal :
    (next : TemplateBlock) (s : Studio)
    → IsLegal s
    → is_sound next ≡ true
    → IsLegal (replace_block next s)
replace_block-IsLegal next s v sound = record {
  legal = are_legal-replaced next sound s.template.blocks v.legal;
  fits = rw (length-map _ s.template.blocks) v.fits;
}

set_visible-is_sound :
    (row b : TemplateBlock) (visible : Bool)
    → is_sound row ≡ true
    → required (kind row) ≡ false
    → (b.id === row.id) ≡ true
    → is_sound b ≡ true
    → is_sound (record b { visible = visible }) ≡ true
set_visible-is_sound row b visible hr optional same hb =
    let name : kind_name (kind b) ≡ kind_name (kind row) =
      sym (is_sound-name b hb) ∙ (eq_iff b.id row.id).0 same ∙ is_sound-name row hr in
    let optional_b : required (kind b) ≡ false =
      ap (λ (n : String). any (λ j. kind_name j === n) required_blocks) name ∙ optional in
    ap₂ ◌&&◌ (and_left _ _ hb) (ap (λ (r : Bool). not r || visible) optional_b)

set_visible-IsLegal :
    (row : TemplateBlock) (o : Option TemplateBlock) (visible : Bool) (s : Studio)
    → IsLegal s
    → is_sound row ≡ true
    → required (kind row) ≡ false
    → find (λ b. b.id === row.id) s.template.blocks ≡ o
    → IsLegal (set_visible o visible s)
set_visible-IsLegal row none visible s v hr optional e = v
set_visible-IsLegal row (some b) visible s v hr optional e =
    let (sound, same) =
      find-all is_sound (λ c. c.id === row.id) s.template.blocks (and_left _ _ v.legal) e in
    replace_block-IsLegal (record b { visible = visible }) s v
      (set_visible-is_sound row b visible hr optional same sound)

pub click_visible-IsLegal :
    (o : Option TemplateBlock) (visible : Bool) (s : Studio)
    → IsLegal s
    → ((row : TemplateBlock) → o ≡ some row → is_sound row ≡ true)
    → IsLegal (click_visible o visible s)
click_visible-IsLegal none visible s v sound = v
click_visible-IsLegal (some row) visible s v sound = elim (Bool-cases (required (kind row))) [
  | inl fixed ↦ subst IsLegal (ap (λ (r : Bool). if r then s else next) (sym fixed)) v
  | inr optional ↦
      subst IsLegal (ap (λ (r : Bool). if r then s else next) (sym optional))
        (set_visible-IsLegal row _ visible s v (sound row refl) optional refl)
]
  where
    next : Studio
    next = set_visible (find (λ b. b.id === row.id) s.template.blocks) visible s

edited-is_sound :
    (b : TemplateBlock) (p : BlockProperties)
    → kind_name (kind_of p) ≡ kind_name (kind b)
    → is_sound b ≡ true
    → is_sound (record b { properties = p }) ≡ true
edited-is_sound b p same h =
    ap
      (λ (n : String).
        b.id === n && (not (any (λ j. kind_name j === n) required_blocks) || b.visible))
      same
    ∙ h

pub edit_block-IsLegal :
    (o : Option TemplateBlock) (p : BlockProperties) (s : Studio)
    → IsLegal s
    → ((row : TemplateBlock) → o ≡ some row → is_sound row ≡ true)
    → IsLegal (edit_block o p s)
edit_block-IsLegal none p s v sound = v
edit_block-IsLegal (some b) p s v sound =
    elim (Bool-cases (kind_name (kind_of p) === kind_name (kind b))) [
      | inr other ↦ subst IsLegal (ap (λ (r : Bool). if r then next else s) (sym other)) v
      | inl same ↦ subst IsLegal (ap (λ (r : Bool). if r then next else s) (sym same)) (
          replace_block-IsLegal (record b { properties = p }) s v
            (edited-is_sound b p ((eq_iff (kind_name (kind_of p)) (kind_name (kind b))).0 same)
              (sound b refl)))
    ]
  where
    next : Studio
    next = replace_block (record b { properties = p }) s
