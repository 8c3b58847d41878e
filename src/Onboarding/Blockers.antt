-- ===== src/Onboarding/Blockers.antt =====
-- `blockerLabel` of frontend-react/src/panels/OnboardingWizard.tsx: the server's blockers, in words.
use Prim.Native.Char.{Char, code}
use Prim.Native.String.{String, [], ◌∷◌, ◌++◌}
use Prim.Native.String.append
use mathlib.Core.Bool.{Bool, true, false, not, ◌&&◌}
use mathlib.Core.Path.{◌≡◌, refl, ap}
use native.Mathlib.Omega.{arith}
use billgen.Prelude.{◌==◌, ◌===◌, if◌then◌else◌}

abbrev pub is_colon : Char → Bool
is_colon c = code c == 58

-- The first piece of `blocker.split(":")`, and the others joined by ":" again.
unfoldable pub head_of : String → String
head_of [] = []
head_of (c ∷ s) = let rest = head_of s in if is_colon c then [] else c ∷ rest

unfoldable pub rest_of : String → String
rest_of [] = []
rest_of (c ∷ s) = let rest = rest_of s in if is_colon c then s else rest

-- The translations.
pub record Labels : Type 0 where
  pub profile : String
  pub no_company : String
  pub company : String
  pub accept : String

module _ (trim : String → String) (labels : Labels) where
  unfoldable pub blocker_label : String → String
  unfolding head_of rest_of
  blocker_label blocker =
      let head = head_of blocker in
      let detail = trim (rest_of blocker) in
      if head === "profile"
      then labels.profile
      else if head === "no company"
      then labels.no_company
      else if head === "company"
      then labels.company ++ (": " ++ detail)
      else if head === "accept"
      then labels.accept ++ (" " ++ detail)
      else blocker

abbrev pub has_no_colon : String → Bool
has_no_colon [] = true
has_no_colon (c ∷ s) = not (is_colon c) && has_no_colon s

joined-first : (c : Char) (s rest : String) → (c ∷ s) ++ (":" ++ rest) ≡ c ∷ (s ++ (":" ++ rest))
joined-first c s rest = append.cons c s (":" ++ rest)

no_colon-first : (a b : Bool) → (not a && b) ≡ true → (a ≡ false) × (b ≡ true)
no_colon-first a b h = ground arith

colon-head : (rest : String) → head_of (":" ++ rest) ≡ ""
unfolding head_of
colon-head rest = rw (append.cons ":" "" rest) refl

colon-rest : (rest : String) → rest_of (":" ++ rest) ≡ rest
unfolding rest_of
colon-rest rest = rw (append.cons ":" "" rest) (append.nil rest)

-- What stands before the first colon, and what stands behind it.
head_of-joined :
    (head rest : String) → has_no_colon head ≡ true → head_of (head ++ (":" ++ rest)) ≡ head
unfolding head_of
head_of-joined [] rest h = rw (append.nil (":" ++ rest)) (colon-head rest)
head_of-joined (c ∷ s) rest h =
    let (k, l) = no_colon-first (is_colon c) (has_no_colon s) h in
    rw (joined-first c s rest) (simp k (ap (λ t. c ∷ t) (head_of-joined s rest l)))

rest_of-joined :
    (head rest : String) → has_no_colon head ≡ true → rest_of (head ++ (":" ++ rest)) ≡ rest
unfolding rest_of
rest_of-joined [] rest h = rw (append.nil (":" ++ rest)) (colon-rest rest)
rest_of-joined (c ∷ s) rest h =
    let (k, l) = no_colon-first (is_colon c) (has_no_colon s) h in
    rw (joined-first c s rest) (simp k (rest_of-joined s rest l))

module _ (trim : String → String) (labels : Labels) where
  -- The blockers as the server writes them: a head alone, or a head and what is missing behind a
  -- colon, which stays whole even where it has a colon itself.
  blocker_label_lem :
      (rest : String)
      → (blocker_label trim labels "profile" ≡ labels.profile)
        × (blocker_label trim labels "no company" ≡ labels.no_company)
        × (blocker_label trim labels ("company" ++ (":" ++ rest))
            ≡ labels.company ++ (": " ++ trim rest))
        × (blocker_label trim labels ("accept" ++ (":" ++ rest))
            ≡ labels.accept ++ (" " ++ trim rest))
  unfolding blocker_label
  blocker_label_lem rest = (
    unfold head_of in refl,
    unfold head_of in refl,
    simp (head_of-joined "company" rest refl, rest_of-joined "company" rest refl),
    simp (head_of-joined "accept" rest refl, rest_of-joined "accept" rest refl),
  )
