-- ===== src/DatePicker/Scenarios.antt =====
-- The theorems on the date picker, in September 2026, whose first day is a Tuesday.
use Prim.Native.Nat.{◌%◌}
use billgen.Prelude.{◌+◌, none, some, ◌≡◌, refl, arith}
use billgen.DatePicker.{
  Month, leading_blanks, get_day, ordinal, days_before_year, days_before_month, days_in_month,
  is_leap, full_year, column, next_month, Bounds, to_iso, decimal, last_digits, text_le, enabled,
  down, target,
}
use billgen.DatePicker.Grid.{column-calendar}
use billgen.DatePicker.Keys.{target-day}

abbrev september : Month
september = record { year = 2026; month = 8 }

abbrev from_tenth : Bounds
from_tenth = record { min = some "2026-09-10"; max = none }

blanks_test : leading_blanks september ≡ 1
unfolding leading_blanks get_day ordinal days_before_year days_before_month days_in_month is_leap
    full_year
blanks_test = refl

-- The leap day of 2024 was a Thursday.
leap_day_test : get_day 2024 1 29 ≡ 4
unfolding get_day ordinal days_before_year days_before_month days_in_month is_leap full_year
leap_day_test = refl

column-calendar_example :
    (column september 10 ≡ (get_day 2026 8 10 + 6) % 7)
    × (column (next_month september) 1 ≡ column september (days_in_month 2026 8 + 1))
column-calendar_example = column-calendar september 10 (omega arith, omega arith) (omega arith)

-- The pads are in the text.
to_iso_test : to_iso september 9 ≡ "2026-09-09"
unfolding to_iso decimal last_digits full_year
to_iso_test = refl

-- In December of the year 99, which the platform takes for 1999, the next month is January 2000.
next_month_test : next_month (record { year = 99; month = 11 }) ≡ record { year = 2000; month = 0 }
unfolding next_month full_year
next_month_test = refl

target-day_example : target down (enabled from_tenth september) (some 0) ≡ some 17
unfolding enabled days_in_month is_leap to_iso decimal last_digits text_le full_year
target-day_example = target-day down from_tenth september 0 10 refl
