-- ===== src/Detail/Filename.antt =====
-- `documentFilename` of frontend-react/src/lib/download.ts.
use Prim.Native.Char.{Char, code}
use Prim.Native.String.{String, [], ◌∷◌, ◌++◌}
use Prim.Native.String.append
use mathlib.Core.Bool.{Bool, true, false, not, ◌&&◌, ◌||◌}
use mathlib.Core.Path.{◌≡◌, refl, ◌∙◌}
use mathlib.Core.Logic.{inl, inr}
use billgen.Prelude.{◌==◌, ◌===◌, if◌then◌else◌, Bool-cases, eq_iff}

-- The characters of the class `[/\\:*?"<>|]`.
abbrev pub is_forbidden : Char → Bool
is_forbidden c =
    code c == 47
    || code c == 92
    || code c == 58
    || code c == 42
    || code c == 63
    || code c == 34
    || code c == 60
    || code c == 62
    || code c == 124

unfoldable pub dashed : String → String
dashed [] = []
dashed (c ∷ s) = let rest = dashed s in if is_forbidden c then "-" ++ rest else c ∷ rest

unfoldable pub document_filename : String → String → String
unfolding dashed
document_filename reference extension = dashed reference ++ ("." ++ extension)

-- The reference of an invoice that has none.
abbrev pub draft_name : String → String
draft_name id = "draft-" ++ id

abbrev pub is_legal : String → Bool
is_legal [] = true
is_legal (c ∷ s) = not (is_forbidden c) && is_legal s

and_step : (a b c d : Bool) → b ≡ (c && d) → (a && b) ≡ ((a && c) && d)
and_step true b c d h = h
and_step false b c d h = refl

is_legal-append : (s t : String) → is_legal (s ++ t) ≡ (is_legal s && is_legal t)
is_legal-append [] t = rw (append.nil t) refl
is_legal-append (c ∷ s) t = rw (append.cons c s t) (
    and_step (not (is_forbidden c)) (is_legal (s ++ t)) (is_legal s) (is_legal t)
      (is_legal-append s t))

is_legal-dashed : (s : String) → is_legal (dashed s) ≡ true
unfolding dashed
is_legal-dashed [] = refl
is_legal-dashed (c ∷ s) = elim (Bool-cases (is_forbidden c)) [
  | inl e ↦ simp e (is_legal-append "-" (dashed s) ∙ is_legal-dashed s)
  | inr e ↦ simp e (is_legal-dashed s)
]

-- A document's name has none of the characters that a file's name may not have, whatever the
-- reference.
pub document_filename-legal :
    (reference extension : String)
    → is_legal extension ≡ true
    → is_legal (document_filename reference extension) ≡ true
unfolding document_filename
document_filename-legal reference extension h =
    is_legal-append (dashed reference) ("." ++ extension)
    ∙ simp (is_legal-dashed reference, is_legal-append "." extension) h

cons-named : (c : Char) (s : String) → ((c ∷ s) === "") ≡ false
cons-named c s = elim (Bool-cases ((c ∷ s) === "")) [
  | inl e ↦ cc ((eq_iff (c ∷ s) "").0 e)
  | inr e ↦ e
]

append-named_dot : (t : String) → (("." ++ t) === "") ≡ false
append-named_dot t = rw (append.cons "." "" t) (cons-named "." ("" ++ t))

append-named : (s t : String) → ((s ++ ("." ++ t)) === "") ≡ false
append-named [] t = rw (append.nil ("." ++ t)) (append-named_dot t)
append-named (c ∷ s) t = rw (append.cons c s ("." ++ t)) (cons-named c (s ++ ("." ++ t)))

pub document_filename-named :
    (reference extension : String) → (document_filename reference extension === "") ≡ false
unfolding document_filename
document_filename-named reference extension = append-named (dashed reference) extension
