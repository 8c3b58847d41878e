-- ===== src/Workspace/Template/Studio/Legal.antt =====
-- The blocks that an invoice must show stay in the list and stay visible.
use mathlib.Core.Path.{subst, ap₂}
use mathlib.Core.Option.{some-injective}
use billgen.Prelude.{
  ℕ, zero, suc, String, ◌<◌, Bool, true, not, ◌&&◌, ◌||◌, List, [], ◌∷◌, map, Option, none, some,
  ◌≡◌, refl, ap, sym, ◌∙◌, inl, inr, arith, ◌===◌, find, get_elem?, all, any, length, ltb, lt→ltb,
  eq_iff, Bool-cases,
}
use billgen.Workspace.Template.Schema.{
  TemplateBlock, kind, kind_name, required, required_blocks, BlockKind,
}
use billgen.Workspace.Template.Canvas.{remove_at, insert_at, move}
use billgen.Workspace.Template.Canvas.Moves.{
  Removed, here, there, remove_at-Removed, move_of_remove_at, length-Removed,
}
use billgen.Workspace.Template.Studio.{Studio, Stage, gallery, editor, DragState, replaced}

-- A block is named for its kind, and shown if its kind is required.
abbrev pub is_sound : TemplateBlock → Bool
is_sound b = b.id === kind_name (kind b) && (not (required (kind b)) || b.visible)

abbrev pub has_kind : BlockKind → TemplateBlock → Bool
has_kind k b = kind_name (kind b) === kind_name k

-- Every block is sound, and every required kind has one.
abbrev pub are_legal : List TemplateBlock → Bool
are_legal bs = all is_sound bs && all (λ k. any (has_kind k) bs) required_blocks

module _ {A : Type 0} (p : A → Bool) where
  all-Removed : {i : ℕ} {xs ys : List A} {y : A} → Removed i xs y ys → all p xs ≡ (p y && all p ys)
  all-Removed here = refl
  all-Removed (there r) = ground (arith, all-Removed r)

  any-Removed : {i : ℕ} {xs ys : List A} {y : A} → Removed i xs y ys → any p xs ≡ (p y || any p ys)
  any-Removed here = refl
  any-Removed (there r) = ground (arith, any-Removed r)

  pub get_elem?-all :
      (xs : List A) (i : ℕ) {x : A} → all p xs ≡ true → get_elem? xs i ≡ some x → p x ≡ true
  get_elem?-all [] i h e = cc
  get_elem?-all (x ∷ xs) zero h e = ground arith
  get_elem?-all (x ∷ xs) (suc i) h e = get_elem?-all xs i (ground arith) e

  pub find-all :
      (q : A → Bool) (xs : List A) {x : A}
      → all p xs ≡ true
      → find q xs ≡ some x
      → (p x ≡ true) × (q x ≡ true)
  find-all q [] h e = cc
  find-all q (x ∷ xs) h e = elim (Bool-cases (q x)) [
    | inl found ↦ ground arith
    | inr other ↦ find-all q xs (ground arith) (rw other at e)
  ]

  all-insert_at : (i : ℕ) (y : A) (xs : List A) → all p (insert_at i y xs) ≡ (p y && all p xs)
  unfolding insert_at
  all-insert_at zero y xs = ground arith
  all-insert_at (suc i) y [] = refl
  all-insert_at (suc i) y (x ∷ xs) = ground (arith, all-insert_at i y xs)

  any-insert_at : (i : ℕ) (y : A) (xs : List A) → any p (insert_at i y xs) ≡ (p y || any p xs)
  unfolding insert_at
  any-insert_at zero y xs = ground arith
  any-insert_at (suc i) y [] = refl
  any-insert_at (suc i) y (x ∷ xs) = ground (arith, any-insert_at i y xs)

length-insert_at :
    {A : Type 0} (i : ℕ) (y : A) (xs : List A) → length (insert_at i y xs) ≡ suc (length xs)
unfolding insert_at
length-insert_at zero y xs = ground arith
length-insert_at (suc i) y [] = refl
length-insert_at (suc i) y (x ∷ xs) = ap suc (length-insert_at i y xs)

-- What a move keeps, wherever it moves the row.
module _ {A : Type 0} where
  pub record Keeps (xs ys : List A) : Type 0 where
    pub same_length : length ys ≡ length xs
    pub same_all : (p : A → Bool) → all p ys ≡ all p xs
    pub same_any : (p : A → Bool) → any p ys ≡ any p xs

  move-ne-some :
      (from to : ℕ) (xs ys : List A) → remove_at from xs ≡ none → move from to xs ≡ some ys → ⊥
  unfolding move
  move-ne-some from to xs ys h e = ground arith

  pub move-Keeps : (from to : ℕ) (xs ys : List A) → move from to xs ≡ some ys → Keeps xs ys
  move-Keeps from to xs ys e = elim (remove_at-Removed from xs) [
    | inl (none_there, h) ↦ absurd (move-ne-some from to xs ys none_there e)
    | inr (y, rest, taken, r) ↦
        let same : insert_at to y rest ≡ ys =
          some-injective (insert_at to y rest) ys (sym (move_of_remove_at from to xs taken) ∙ e) in
        subst (Keeps xs) same (record {
          same_length = length-insert_at to y rest ∙ sym (length-Removed r);
          same_all = λ p. all-insert_at p to y rest ∙ sym (all-Removed p r);
          same_any = λ p. any-insert_at p to y rest ∙ sym (any-Removed p r);
        })
  ]

-- The studio's invariant: the blocks are legal, and in the editor a dragged row is one of the list's.
abbrev pub drag_fits : Stage → Option DragState → ℕ → Bool
drag_fits gallery d n = true
drag_fits editor none n = true
drag_fits editor (some d) n = ltb d.from_index n

pub record IsLegal (s : Studio) : Type 0 where
  pub legal : are_legal s.template.blocks ≡ true
  pub fits : drag_fits s.stage s.drag (length s.template.blocks) ≡ true

pub drag_fits-none : (st : Stage) (n : ℕ) → drag_fits st none n ≡ true
drag_fits-none gallery n = refl
drag_fits-none editor n = refl

pub drag_fits_of_lt :
    (st : Stage) (d : DragState) (n : ℕ) → d.from_index < n → drag_fits st (some d) n ≡ true
drag_fits_of_lt gallery d n h = refl
drag_fits_of_lt editor d n h = lt→ltb _ _ h

pub drag_fits-over :
    (st : Stage) (d : DragState) (over n : ℕ)
    → drag_fits st (some d) n ≡ true
    → drag_fits st (some (record d { over_index = over })) n ≡ true
drag_fits-over gallery d over n h = refl
drag_fits-over editor d over n h = h

pub are_legal-Keeps :
    {xs ys : List TemplateBlock} → Keeps xs ys → are_legal xs ≡ true → are_legal ys ≡ true
are_legal-Keeps {xs} {ys} k h =
    (λ i. k.same_all is_sound i && all (λ kd. k.same_any (has_kind kd) i) required_blocks) ∙ h

pub and_left : (a b : Bool) → (a && b) ≡ true → a ≡ true
and_left a b h = ground arith

pub and_right : (a b : Bool) → (a && b) ≡ true → b ≡ true
and_right a b h = ground arith

pub is_sound-name : (b : TemplateBlock) → is_sound b ≡ true → b.id ≡ kind_name (kind b)
is_sound-name b h = (eq_iff b.id (kind_name (kind b))).0 (and_left _ _ h)

-- Replacing by a block of the same name and kind.
module _ (next : TemplateBlock) (sound : is_sound next ≡ true) where
  all-replaced :
      (bs : List TemplateBlock)
      → all is_sound bs ≡ true
      → all is_sound (map (replaced next) bs) ≡ true
  all-replaced [] h = refl
  all-replaced (b ∷ bs) h = ground (arith, all-replaced bs)

  has_kind-replaced :
      (k : BlockKind) (b : TemplateBlock)
      → is_sound b ≡ true
      → has_kind k (replaced next b) ≡ has_kind k b
  has_kind-replaced k b h = elim (Bool-cases (b.id === next.id)) [
    | inr other ↦ rw other refl
    | inl same ↦ rw same (
        ap (λ (n : String). n === kind_name k)
          (sym (is_sound-name next sound) ∙ sym ((eq_iff b.id next.id).0 same) ∙ is_sound-name b h))
  ]

  any-replaced :
      (k : BlockKind) (bs : List TemplateBlock)
      → all is_sound bs ≡ true
      → any (has_kind k) (map (replaced next) bs) ≡ any (has_kind k) bs
  any-replaced k [] h = refl
  any-replaced k (b ∷ bs) h =
      ap₂ ◌||◌ (has_kind-replaced k b (and_left _ _ h)) (any-replaced k bs (and_right _ _ h))

  pub are_legal-replaced :
      (bs : List TemplateBlock) → are_legal bs ≡ true → are_legal (map (replaced next) bs) ≡ true
  are_legal-replaced bs h =
      ap₂ ◌&&◌ (all-replaced bs (and_left _ _ h))
        ((λ i. all (λ k. any-replaced k bs (and_left _ _ h) i) required_blocks) ∙ and_right _ _ h)
