-- ===== src/DatePicker/Texts.antt =====
-- The order of the ISO texts of henrioutai-ui/src/components/DatePicker.tsx.
use Prim.Native.Char.{code}
use Prim.Native.String.{String, [], ◌∷◌, ◌++◌}
use Prim.Native.String.append
use billgen.Prelude.{
  ℕ, zero, suc, ◌<◌, Bool, true, false, ◌&&◌, ◌||◌, Option, none, some, ◌≡◌, refl, arith,
  Bool-cases, inl, inr, ◌==◌, ◌===◌, ltb, if◌then◌else◌,
}
use billgen.DatePicker.{
  Month, decimal, last_digits, pad_start, to_iso, text_le, not_before, not_after,
}

chain :
    (a b c : ℕ) {r s t : Bool}
    → (if a == b then r else ltb a b) ≡ true
    → (if b == c then s else ltb b c) ≡ true
    → (r ≡ true → s ≡ true → t ≡ true)
    → (if a == c then t else ltb a c) ≡ true
chain a b c h k next = ground arith

text_le_trans : (s t u : String) → text_le s t ≡ true → text_le t u ≡ true → text_le s u ≡ true
unfolding text_le
text_le_trans [] t u h k = refl
text_le_trans (c ∷ s) [] u h k = cc
text_le_trans (c ∷ s) (e ∷ t) [] h k = cc
text_le_trans (c ∷ s) (e ∷ t) (f ∷ u) h k =
    chain (code c) (code e) (code f) h k (text_le_trans s t u)

itself : (n : ℕ) → (n == n) ≡ true
itself n = ground arith

text_le-append : (p s t : String) → text_le s t ≡ true → text_le (p ++ s) (p ++ t) ≡ true
unfolding text_le
text_le-append [] s t h = rw (append.nil s, append.nil t) h
text_le-append (c ∷ p) s t h =
    rw (append.cons c p s, append.cons c p t) (simp (itself (code c)) (text_le-append p s t h))

abbrev padded : ℕ → String
padded d = pad_start (decimal d)

in_order : ℕ → Bool
in_order zero = true
in_order (suc d) = text_le (padded d) (padded (suc d)) && in_order d

in_order_40 : in_order 40 ≡ true
unfolding text_le decimal last_digits in_order
in_order_40 = refl

both : (a b : Bool) → (a && b) ≡ true → (a ≡ true) × (b ≡ true)
both a b h = ground arith

padded-order : (n d : ℕ) → in_order n ≡ true → d < n → text_le (padded d) (padded (suc d)) ≡ true
unfolding in_order
padded-order zero d h k = ground arith
padded-order (suc n) d h k =
    let (here, before) = both (text_le (padded n) (padded (suc n))) (in_order n) h in
    elim (Bool-cases (d == n)) [
      | inl e ↦ let same : d ≡ n = ground (arith, e) in rw same here
      | inr e ↦ padded-order n d before (ground (arith, e, k))
    ]

-- The texts of a month's days are in the order of its days.
to_iso-order : (v : Month) (d : ℕ) → d < 40 → text_le (to_iso v d) (to_iso v (suc d)) ≡ true
unfolding to_iso
to_iso-order v d h = text_le-append _ (padded d) (padded (suc d)) (padded-order 40 d in_order_40 h)

carried : (a : Bool) {b c : Bool} → (b ≡ true → c ≡ true) → (a || b) ≡ true → (a || c) ≡ true
carried a k h = ground arith

refused : (b c : Bool) → (c ≡ true → b ≡ true) → b ≡ false → c ≡ false
refused b c k h = ground arith

-- A bound from below that a day meets is met by the next one.
pub not_before-suc :
    (bound : Option String) (v : Month) (d : ℕ)
    → d < 40
    → not_before bound (to_iso v d) ≡ true
    → not_before bound (to_iso v (suc d)) ≡ true
not_before-suc none v d h k = refl
not_before-suc (some b) v d h k =
    carried (b === "") (λ e. text_le_trans b (to_iso v d) (to_iso v (suc d)) e (to_iso-order v d h))
      k

not_after-before :
    (bound : Option String) (v : Month) (d : ℕ)
    → d < 40
    → not_after bound (to_iso v (suc d)) ≡ true
    → not_after bound (to_iso v d) ≡ true
not_after-before none v d h k = refl
not_after-before (some b) v d h k =
    carried (b === "") (text_le_trans (to_iso v d) (to_iso v (suc d)) b (to_iso-order v d h)) k

-- Behind a day that is past the bound all are.
pub not_after-suc :
    (bound : Option String) (v : Month) (d : ℕ)
    → d < 40
    → not_after bound (to_iso v d) ≡ false
    → not_after bound (to_iso v (suc d)) ≡ false
not_after-suc bound v d h k = refused _ _ (not_after-before bound v d h) k
