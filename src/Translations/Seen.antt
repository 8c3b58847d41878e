-- ===== src/Translations/Seen.antt =====
-- The texts of frontend-react/src/lib/translations.ts that can be seen, and those that have a dot.
use Prim.Native.Char.{Char, code}
use Prim.Native.String.{String, [], ◌∷◌, ◌++◌}
use Prim.Native.String.append
use mathlib.Core.Path.{◌≡◌, refl}
use mathlib.Core.Bool.{Bool, true, false, not, ◌||◌, ◌&&◌}
use mathlib.Core.Logic.{inl, inr}
use native.Mathlib.Omega.{arith}
use billgen.Prelude.{◌==◌, Bool-cases}
use billgen.Translations.{spaced, capitalised}

-- A text does not consist of spaces alone.
abbrev pub is_seen : String → Bool
is_seen [] = false
is_seen (c ∷ s) = not (code c == 32) || is_seen s

-- Nor of spaces and underscores alone.
abbrev pub has_word : String → Bool
has_word [] = false
has_word (c ∷ s) = not (code c == 32) && not (code c == 95) || has_word s

abbrev pub has_dot : String → Bool
has_dot [] = false
has_dot (c ∷ s) = code c == 46 || has_dot s

or_left : (a : Bool) {b c : Bool} → (a || b) ≡ true → (b ≡ true → c ≡ true) → (a || c) ≡ true
or_left a h k = ground arith

or_right : (a : Bool) {b : Bool} → b ≡ true → (a || b) ≡ true
or_right a h = ground arith

is_seen-append : (s u : String) → is_seen s ≡ true → is_seen (s ++ u) ≡ true
is_seen-append [] u h = cc
is_seen-append (c ∷ s) u h =
    rw (append.cons c s u) (or_left (not (code c == 32)) h (is_seen-append s u))

is_seen-append_right : (s u : String) → is_seen u ≡ true → is_seen (s ++ u) ≡ true
is_seen-append_right [] u h = rw (append.nil u) h
is_seen-append_right (c ∷ s) u h =
    rw (append.cons c s u) (or_right (not (code c == 32)) (is_seen-append_right s u h))

pub has_dot-append : (s u : String) → has_dot s ≡ true → has_dot (s ++ u) ≡ true
has_dot-append [] u h = cc
has_dot-append (c ∷ s) u h = rw (append.cons c s u) (or_left (code c == 46) h (has_dot-append s u))

pub has_dot-append_right : (s u : String) → has_dot u ≡ true → has_dot (s ++ u) ≡ true
has_dot-append_right [] u h = rw (append.nil u) h
has_dot-append_right (c ∷ s) u h =
    rw (append.cons c s u) (or_right (code c == 46) (has_dot-append_right s u h))

pub has_word-is_seen : (s : String) → has_word s ≡ true → is_seen s ≡ true
has_word-is_seen [] h = h
has_word-is_seen (c ∷ s) h = elim (Bool-cases (code c == 32)) [
  | inl e ↦ simp e (has_word-is_seen s (simp e at h))
  | inr e ↦ simp e refl
]

word_after : (a b : Bool) {w : Bool} → b ≡ true → (not a && not b || w) ≡ true → w ≡ true
word_after a b e h = ground arith

word_here :
    (a b : Bool) {w s : Bool}
    → b ≡ false
    → (not a && not b || w) ≡ true
    → (w ≡ true → s ≡ true)
    → (not a || s) ≡ true
word_here a b e h k = ground arith

pub spaced-is_seen : (s : String) → has_word s ≡ true → is_seen (spaced s) ≡ true
unfolding spaced
spaced-is_seen [] h = h
spaced-is_seen (c ∷ s) h = elim (Bool-cases (code c == 95)) [
  | inl e ↦
      simp e
        (is_seen-append_right " " (spaced s) (spaced-is_seen s (word_after (code c == 32) _ e h)))
  | inr e ↦ simp e (word_here (code c == 32) _ e h (spaced-is_seen s))
]

-- The platform turns no character into spaces alone, but the space.
pub capitalised-is_seen :
    (upper : Char → String) (s : String)
    → ((c : Char) → (code c == 32) ≡ false → is_seen (upper c) ≡ true)
    → is_seen s ≡ true
    → is_seen (capitalised upper s) ≡ true
unfolding capitalised
capitalised-is_seen upper [] h k = k
capitalised-is_seen upper (c ∷ s) h k = elim (Bool-cases (code c == 32)) [
  | inl e ↦ is_seen-append_right (upper c) s (simp e at k)
  | inr e ↦ is_seen-append (upper c) s (h c e)
]
