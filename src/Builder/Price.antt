-- ===== src/Builder/Price.antt =====
-- `trimPrice` of frontend-react/src/panels/InvoiceBuilderPanel.tsx.
use Prim.Native.Char.{Char, code}
use Prim.Native.String.{String, [], ◌∷◌, ◌++◌}
use mathlib.Core.Bool.{Bool, true, false, not, ◌&&◌}
use mathlib.Core.Path.{◌≡◌, refl}
use billgen.Prelude.{leb, ◌==◌, if◌then◌else◌}

abbrev is_digit : Char → Bool
is_digit c = leb 48 (code c) && leb (code c) 57

abbrev is_dot : Char → Bool
is_dot c = code c == 46

abbrev is_empty : String → Bool
is_empty [] = true
is_empty (c ∷ s) = false

abbrev all_digits : String → Bool
all_digits [] = true
all_digits (c ∷ s) = is_digit c && all_digits s

-- The pieces of a text before and after its first point.
abbrev whole_of : String → String
whole_of [] = []
whole_of (c ∷ s) = let rest = whole_of s in if is_dot c then [] else c ∷ rest

abbrev fraction_of : String → String
fraction_of [] = []
fraction_of (c ∷ s) = let later = fraction_of s in if is_dot c then s else later

abbrev unsigned : String → String
unsigned [] = []
unsigned (c ∷ s) = if code c == 45 then s else c ∷ s

-- `/^-?\d+\.\d+$/.test(value)`
abbrev is_decimal : String → Bool
is_decimal value =
    let whole = whole_of (unsigned value) in
    let fraction = fraction_of value in
    (all_digits whole && not (is_empty whole)) && (all_digits fraction && not (is_empty fraction))

-- `value.replace(/0+$/, "")`
abbrev strip_zero : Char → String → String
strip_zero c s = if is_empty s && code c == 48 then [] else c ∷ s

abbrev strip_zeros : String → String
strip_zeros [] = []
strip_zeros (c ∷ s) = let rest = strip_zeros s in strip_zero c rest

-- `fraction.padEnd(2, "0")`
abbrev pad_end : String → String
pad_end [] = "00"
pad_end (c ∷ []) = c ∷ "0"
pad_end (c ∷ d ∷ s) = c ∷ d ∷ s

unfoldable pub trim_price : String → String
trim_price value =
    let stripped = strip_zeros value in
    if is_decimal value then whole_of stripped ++ ("." ++ pad_end (fraction_of stripped)) else value

stored_test : trim_price "850.000000" ≡ "850.00"
unfolding trim_price
stored_test = refl

precise_test : trim_price "0.123400" ≡ "0.1234"
unfolding trim_price
precise_test = refl

typed_test : trim_price "-5.5" ≡ "-5.50"
unfolding trim_price
typed_test = refl

plain_test : trim_price "850" ≡ "850"
unfolding trim_price
plain_test = refl
