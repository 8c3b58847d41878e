-- ===== src/DatePicker.antt =====
-- henrioutai-ui/src/components/DatePicker.tsx: the month that is shown, its grid, and the keys that move
-- the focus. Months are counted from zero, as the platform's dates count them, and years are from 1 on.
pub mod Grid
mod Texts
pub mod Keys
mod Scenarios
use Prim.Native.Nat.{◌%◌}
use Prim.Native.Char.{Char, code}
use Prim.Native.String.{String, [], ◌∷◌, ◌++◌}
use billgen.Prelude.{
  ℕ, zero, suc, ◌+◌, ◌-◌, ◌*◌, ◌/◌, Bool, true, false, not, ◌&&◌, ◌||◌, List, [], ◌∷◌, Option, none,
  some, if◌then◌else◌, ◌==◌, ◌===◌, leb, ltb, filter, get_elem?,
}

-- The platform's calendar: `new Date(year, month, day)`.
unfoldable pub is_leap : ℕ → Bool
is_leap y = (y % 4 == 0) && (not (y % 100 == 0) || (y % 400 == 0))

-- `new Date(year, month + 1, 0).getDate()`
unfoldable pub days_in_month : ℕ → ℕ → ℕ
days_in_month y m =
    if m == 1 then 28 + (if is_leap y then 1 else 0) else if leb m 6 then 31 - m % 2 else 30 + m % 2

unfoldable pub days_before_month : ℕ → ℕ → ℕ
days_before_month y zero = 0
days_before_month y (suc m) = days_before_month y m + days_in_month y m

unfoldable pub days_before_year : ℕ → ℕ
days_before_year y =
    let years = y - 1 in
    let leap_years = years / 4 + years / 400 - years / 100 in 365 * years + leap_years

-- The day's number; January 1st of the year 1, a Monday, is 1.
unfoldable pub ordinal : ℕ → ℕ → ℕ → ℕ
ordinal y m d = days_before_year y + days_before_month y m + d

-- The year that `new Date(year, month, day)` takes a number for: up to 99 they are the 1900s, whose
-- months are as long as those of the same numbers from 1 on.
unfoldable pub full_year : ℕ → ℕ
full_year y = if leb y 99 then 1900 + y else y

-- `getDay()` of `new Date(y, m, d)`: Sunday is 0.
unfoldable pub get_day : ℕ → ℕ → ℕ → ℕ
get_day y m d = ordinal (full_year y) m d % 7

-- The month that is shown.
pub record Month : Type 0 where
  pub year : ℕ
  pub month : ℕ

-- `new Date(m.getFullYear(), m.getMonth() + delta, 1)` for 1 and -1.
unfoldable pub next_month : Month → Month
next_month v =
    if v.month == 11
    then record { year = full_year v.year + 1; month = 0 }
    else record { year = full_year v.year; month = v.month + 1 }

unfoldable pub previous_month : Month → Month
previous_month v =
    if v.month == 0
    then record { year = full_year v.year - 1; month = 11 }
    else record { year = full_year v.year; month = v.month - 1 }

unfoldable pub leading_blanks : Month → ℕ
leading_blanks v = (get_day v.year v.month 1 + 6) % 7

-- The column of a day in the grid of seven, which starts with the blanks.
unfoldable pub column : Month → ℕ → ℕ
column v d = (leading_blanks v + (d - 1)) % 7

-- The days of the grid, from one on.
abbrev pub days_from : ℕ → ℕ → List ℕ
days_from d zero = []
days_from d (suc n) = d ∷ days_from (suc d) n

abbrev pub digits : List String
digits = "0" ∷ "1" ∷ "2" ∷ "3" ∷ "4" ∷ "5" ∷ "6" ∷ "7" ∷ "8" ∷ "9" ∷ []

abbrev pub digit : ℕ → String
digit n = elim (get_elem? digits n) [ none ↦ "" | some s ↦ s ]

-- The last digits of a number, before a text.
unfoldable pub last_digits : ℕ → ℕ → String → String
last_digits zero n behind = behind
last_digits (suc places) n behind =
    let shown = digit (n % 10) ++ behind in
    let more = last_digits places (n / 10) shown in if ltb n 10 then shown else more

-- `String(n)`, of a number of at most sixteen digits.
unfoldable pub decimal : ℕ → String
unfolding last_digits
decimal n = last_digits 16 n ""

-- `padStart(2, "0")`
abbrev pub pad_start : String → String
pad_start [] = "00"
pad_start (c ∷ []) = "0" ++ (c ∷ [])
pad_start (c ∷ e ∷ s) = c ∷ e ∷ s

-- `toISO(new Date(year, month, day))`, of a day of the month.
unfoldable pub to_iso : Month → ℕ → String
to_iso v d =
    (decimal (full_year v.year) ++ ("-" ++ (pad_start (decimal (v.month + 1)) ++ "-")))
    ++ pad_start (decimal d)

-- `s <= u`, by the codes of the characters.
unfoldable pub text_le : String → String → Bool
text_le [] u = true
text_le (c ∷ s) [] = false
text_le (c ∷ s) (e ∷ u) =
    let rest = text_le s u in if code c == code e then rest else ltb (code c) (code e)

-- The owner's ISO bounds.
pub record Bounds : Type 0 where
  pub min : Option String
  pub max : Option String

abbrev pub not_before : Option String → String → Bool
not_before none iso = true
not_before (some bound) iso = bound === "" || text_le bound iso

abbrev pub not_after : Option String → String → Bool
not_after none iso = true
not_after (some bound) iso = bound === "" || text_le iso bound

abbrev pub in_bounds : Bounds → String → Bool
in_bounds b iso = not_before b.min iso && not_after b.max iso

-- The buttons that are not disabled, in the order of the page.
unfoldable pub enabled : Bounds → Month → List ℕ
enabled b v = filter (λ d. in_bounds b (to_iso v d)) (days_from 1 (days_in_month v.year v.month))

pub data Arrow : Type 0 where
  left right up down : Arrow

-- `days[at + delta]`; `none` for the focus stands for the index -1.
unfoldable pub target : Arrow → List ℕ → Option ℕ → Option ℕ
target left days none = none
target left days (some i) = if i == 0 then none else get_elem? days (i - 1)
target right days none = get_elem? days 0
target right days (some i) = get_elem? days (i + 1)
target up days none = none
target up days (some i) = if leb 7 i then get_elem? days (i - 7) else none
target down days none = get_elem? days 6
target down days (some i) = get_elem? days (i + 7)
