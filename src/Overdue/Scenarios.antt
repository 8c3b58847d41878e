-- ===== src/Overdue/Scenarios.antt =====
-- The theorem on lateness, on an invoice that was due on the last day of February 2026, in a time zone
-- that puts the clock forward the night after.
use Prim.Native.String.{String, [], ◌∷◌}
use billgen.Prelude.{
  ℕ, ◌+◌, ◌*◌, [], ◌∷◌, Option, none, some, ◌≡◌, refl, arith, leb, if◌then◌else◌, ◌===◌, All,
}
use billgen.DatePicker.{
  ordinal, days_before_year, days_before_month, days_in_month, is_leap, full_year,
}
use billgen.Overdue.{
  LocalDay, is_receivable, split, date_number, rounded_days, local_day, days_overdue,
}
use billgen.Overdue.Order.{IsDay}
use billgen.Overdue.Rounds.{IsText, IsMidnight, calendar_days, days_overdue-calendar}

abbrev end_of_february : LocalDay
end_of_february = record { year = 2026; month = 1; day = 28 }

abbrev first_of_march : LocalDay
first_of_march = record { year = 2026; month = 2; day = 1 }

-- `Number` of the texts below.
abbrev read_number : String → Option ℕ
read_number s =
    if s === "2026"
    then some 2026
    else if s === "02"
    then some 2
    else if s === "28"
    then some 28
    else none

-- March 1st 2026 is day 739676, and the first that starts an hour early.
abbrev clock : ℕ → ℕ
clock n = 86400000 * n + (if leb 739676 n then 0 else 3600000)

clock-IsMidnight : (n : ℕ) → IsMidnight clock n
clock-IsMidnight n = ground arith

february-IsText : IsText read_number "2026-02-28" end_of_february
february-IsText = record {
  year_text = "2026";
  month_text = "02";
  day_text = "28";
  iso_in = refl;
  dashes_in = (refl, refl, refl);
  year_in = refl;
  month_in = refl;
  day_in = refl;
}

end_of_february-IsDay : IsDay end_of_february
unfolding days_in_month is_leap
end_of_february-IsDay = record {
  year_in = omega arith;
  month_in = omega arith;
  day_in = (omega arith, omega arith);
}

first_of_march-IsDay : IsDay first_of_march
unfolding days_in_month is_leap
first_of_march-IsDay = record {
  year_in = omega arith;
  month_in = omega arith;
  day_in = (omega arith, omega arith);
}

-- One day late on the first of March, though only 23 hours have passed, and on time on the day itself.
late_test : days_overdue read_number clock "issued" (some "2026-02-28") first_of_march ≡ some 1
unfolding days_overdue is_receivable local_day split date_number rounded_days ordinal
    days_before_year days_before_month days_in_month is_leap full_year
late_test = refl

on_time_test : days_overdue read_number clock "issued" (some "2026-02-28") end_of_february ≡ none
unfolding days_overdue is_receivable local_day split date_number rounded_days ordinal
    days_before_year days_before_month days_in_month is_leap full_year
on_time_test = refl

days_overdue-calendar_example :
    All
      (λ s.
        days_overdue read_number clock s (some "2026-02-28") first_of_march
        ≡ calendar_days read_number clock end_of_february first_of_march)
      ("issued" ∷ "partially_paid" ∷ "overdue" ∷ [])
    × All
        (λ s. days_overdue read_number clock s (some "2026-02-28") first_of_march ≡ none)
        ("draft" ∷ "paid" ∷ "voided" ∷ [])
    × (days_overdue read_number clock "issued" none first_of_march ≡ none)
    × (days_overdue read_number clock "issued" (some "") first_of_march ≡ none)
days_overdue-calendar_example =
    days_overdue-calendar read_number clock "issued" "2026-02-28" end_of_february first_of_march
      february-IsText end_of_february-IsDay first_of_march-IsDay clock-IsMidnight
