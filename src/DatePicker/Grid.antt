-- ===== src/DatePicker/Grid.antt =====
-- The grid of henrioutai-ui/src/components/DatePicker.tsx against the calendar.
use Prim.Native.Nat.{◌%◌}
use billgen.Prelude.{
  ℕ, suc, ◌+◌, ◌-◌, ◌≤◌, ◌≡◌, refl, ap, ◌∙◌, sym, arith, Bool-cases, inl, inr, ◌==◌, if◌then◌else◌,
}
use billgen.DatePicker.{
  is_leap, days_in_month, days_before_month, days_before_year, ordinal, full_year, get_day, Month,
  next_month, previous_month, leading_blanks, column,
}

-- A month of the calendar.
abbrev pub IsMonth : Month → Type 0
IsMonth v = (1 ≤ v.year) × (v.month ≤ 11)

column_shift : (o d : ℕ) → 1 ≤ d → (((o + 1) % 7 + 6) % 7 + (d - 1)) % 7 ≡ ((o + d) % 7 + 6) % 7
column_shift o d h = omega arith

pub year_length :
    (y : ℕ)
    → 1 ≤ y
    → days_before_year (y + 1) ≡ days_before_year y + (if is_leap y then 366 else 365)
unfolding days_before_year is_leap
year_length y h = ground arith

pub months_length :
    (y : ℕ) → days_before_month y 11 + days_in_month y 11 ≡ (if is_leap y then 366 else 365)
unfolding days_before_month days_in_month
months_length y = ground arith

column-get_day : (v : Month) (d : ℕ) → 1 ≤ d → column v d ≡ (get_day v.year v.month d + 6) % 7
unfolding column leading_blanks get_day ordinal
column-get_day v d h =
    column_shift
      (days_before_year (full_year v.year) + days_before_month (full_year v.year) v.month) d h

later_month : (y m : ℕ) → days_before_month y (m + 1) ≡ days_before_month y m + days_in_month y m
unfolding days_before_month
later_month y m = let e : m + 1 ≡ suc m = omega arith in rw e refl

no_month : (y : ℕ) → days_before_month y 0 ≡ 0
unfolding days_before_month
no_month y = refl

later_day : (y m d : ℕ) → ordinal y m (days_in_month y m + d) ≡ ordinal y (m + 1) d
unfolding ordinal
later_day y m d = omega (arith, later_month y m)

later_year : (y d : ℕ) → 1 ≤ y → ordinal y 11 (days_in_month y 11 + d) ≡ ordinal (y + 1) 0 d
unfolding ordinal
later_year y d h = omega (arith, year_length y h, months_length y, no_month (y + 1))

full_year-year : (y : ℕ) → 1 ≤ full_year y
unfolding full_year
full_year-year y = ground arith

full_year-full_year : (y : ℕ) → full_year (full_year y) ≡ full_year y
unfolding full_year
full_year-full_year y = ground arith

full_year-later : (y : ℕ) → full_year (full_year y + 1) ≡ full_year y + 1
unfolding full_year
full_year-later y = ground arith

is_leap-full_year : (y : ℕ) → 1 ≤ y → is_leap (full_year y) ≡ is_leap y
unfolding is_leap full_year
is_leap-full_year y h = ground arith

days_in_month-full_year : (y m : ℕ) → 1 ≤ y → days_in_month (full_year y) m ≡ days_in_month y m
unfolding days_in_month
days_in_month-full_year y m h = rw (is_leap-full_year y h) refl

ordinal-next_month :
    (v : Month) (d : ℕ)
    → IsMonth v
    → ordinal (full_year v.year) v.month (days_in_month v.year v.month + d)
      ≡ ordinal (full_year (next_month v).year) (next_month v).month d
unfolding next_month
ordinal-next_month v d (h, k) =
    rw (sym (days_in_month-full_year v.year v.month h)) (elim (Bool-cases (v.month == 11)) [
      | inl e ↦
          let december : v.month ≡ 11 = ground (arith, e) in
          simp (december, full_year-later v.year)
            (later_year (full_year v.year) d (full_year-year v.year))
      | inr e ↦ simp (e, full_year-full_year v.year) (later_day (full_year v.year) v.month d)
    ])

-- From the year 101 on the two arrows of the header undo each other.
next_month-previous_month :
    (v : Month) → 101 ≤ v.year → v.month ≤ 11 → next_month (previous_month v) ≡ v
unfolding next_month previous_month full_year
next_month-previous_month v h k = ground arith

-- The grid is the calendar's: each day stands in the column of its weekday, Monday first, also where
-- a month follows another, whose first day stands in the column behind the last of the one before.
pub column-calendar :
    (v : Month) (d : ℕ)
    → IsMonth v
    → 1 ≤ d
    → (column v d ≡ (get_day v.year v.month d + 6) % 7)
      × (column (next_month v) 1 ≡ column v (days_in_month v.year v.month + 1))
unfolding get_day
column-calendar v d h k = (
  column-get_day v d k,
  column-get_day (next_month v) 1 (omega arith)
      ∙ ap (λ (o : ℕ). (o % 7 + 6) % 7) (sym (ordinal-next_month v 1 h))
      ∙ sym (column-get_day v (days_in_month v.year v.month + 1) (omega arith)),
)
