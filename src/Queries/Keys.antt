-- ===== src/Queries/Keys.antt =====
-- The keys of frontend-react/src/hooks/queries.ts.
use billgen.Prelude.{
  ℕ, String, Bool, true, false, ◌&&◌, List, [], ◌∷◌, Option, none, some, ◌===◌, ◌==◌,
}

-- A part of a key.
pub data Part : Type 0 where
  word : String → Part
  number : ℕ → Part
  undefined null : Part

abbrev pub Key : Type 0
Key = List Part

-- `value ?? fallback`
abbrev pub or_word : String → Option String → Part
or_word fallback none = word fallback
or_word fallback (some v) = word v

abbrev pub or_number : ℕ → Option ℕ → Part
or_number fallback none = number fallback
or_number fallback (some n) = number n

abbrev pub nullable : Option ℕ → Part
nullable none = null
nullable (some n) = number n

-- A value that may be undefined, as it is.
abbrev pub bare : Option String → Part
bare none = undefined
bare (some v) = word v

abbrev pub same_part : Part → Part → Bool
same_part (word s) (word t) = s === t
same_part (number m) (number n) = m == n
same_part undefined undefined = true
same_part null null = true
same_part _ _ = false

-- A key that starts with the parts of another.
abbrev pub is_prefix : Key → Key → Bool
is_prefix [] key = true
is_prefix (p ∷ ps) [] = false
is_prefix (p ∷ ps) (q ∷ qs) = same_part p q && is_prefix ps qs
