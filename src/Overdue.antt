-- ===== src/Overdue.antt =====
-- frontend-react/src/lib/invoiceStatus.ts: how late an invoice is. `number` is the platform's `Number` of a
-- text, where that is a whole number from zero on, and `midnight` the instant, in milliseconds, at which
-- a day of the local time zone starts.
pub mod Order
pub mod Rounds
mod Scenarios
use Prim.Native.Nat.{◌%◌}
use Prim.Native.Char.{Char, code}
use Prim.Native.String.{String, [], ◌∷◌}
use billgen.Prelude.{
  ℕ, ◌+◌, ◌-◌, ◌/◌, Bool, true, false, ◌&&◌, ◌||◌, List, [], ◌∷◌, Option, none, some, ◌===◌, ◌==◌,
  ltb, if◌then◌else◌,
}
use billgen.DatePicker.{ordinal, full_year}

-- A local day; months are counted from zero.
pub record LocalDay : Type 0 where
  pub year : ℕ
  pub month : ℕ
  pub day : ℕ

-- `RECEIVABLE`
unfoldable pub is_receivable : String → Bool
is_receivable status = status === "issued" || status === "partially_paid" || status === "overdue"

-- `iso.split("-")`
abbrev pub before_part : Char → List String → List String
before_part c [] = (c ∷ []) ∷ []
before_part c (part ∷ parts) = (c ∷ part) ∷ parts

unfoldable pub split : String → List String
split [] = [] ∷ []
split (c ∷ s) = let rest = split s in if code c == 45 then [] ∷ rest else before_part c rest

-- The number of the day `new Date(year, month - 1, day)`: months beyond the year are carried over.
unfoldable pub date_number : ℕ → ℕ → ℕ → ℕ
date_number year month day =
    if month == 0
    then ordinal (full_year year - 1) 11 day
    else ordinal (full_year year + (month - 1) / 12) ((month - 1) % 12) day

-- `Math.round((now - due) / MS_PER_DAY)`, or 0 where that is no more than 0.
unfoldable pub rounded_days : ℕ → ℕ → ℕ
rounded_days due now = if ltb due now then (now - due + 43200000) / 86400000 else 0

abbrev pub late : ℕ → ℕ → Option ℕ
late due now = let days = rounded_days due now in if ltb 0 days then some days else none

module _ (number : String → Option ℕ) (midnight : ℕ → ℕ) where
  -- A part that is missing, or that `Number` does not read, makes an invalid date.
  abbrev pub read_day : Option ℕ → Option ℕ → Option ℕ → Option ℕ
  read_day (some year) (some month) (some day) = some (midnight (date_number year month day))
  read_day _ _ _ = none

  abbrev pub parts_day : List String → Option ℕ
  parts_day (year ∷ month ∷ day ∷ parts) = read_day (number year) (number month) (number day)
  parts_day _ = none

  unfoldable pub local_day : String → Option ℕ
  unfolding split
  local_day iso = parts_day (split iso)

  abbrev pub this_midnight : LocalDay → ℕ
  this_midnight today = midnight (date_number today.year (today.month + 1) today.day)

  -- A difference with an invalid date is not above 0.
  abbrev pub late_at : Option ℕ → ℕ → Option ℕ
  late_at none now = none
  late_at (some due) now = late due now

  abbrev pub late_since : Option String → LocalDay → Option ℕ
  late_since none today = none
  late_since (some iso) today =
      if iso === "" then none else late_at (local_day iso) (this_midnight today)

  unfoldable pub days_overdue : String → Option String → LocalDay → Option ℕ
  days_overdue status due_date today =
      if is_receivable status then late_since due_date today else none
