-- ===== src/Overdue/Order.antt =====
-- The days of frontend-react/src/lib/invoiceStatus.ts in the order of the calendar.
use billgen.Prelude.{
  ℕ, zero, suc, ◌+◌, ◌≤◌, ◌<◌, Bool, true, false, ◌&&◌, ◌||◌, ◌≡◌, ap, ◌∙◌, sym, arith, Bool-cases,
  inl, inr, ltb→lt, lt→ltb, ◌⊎◌, ◌==◌, ltb, if◌then◌else◌,
}
use billgen.DatePicker.{is_leap, days_in_month, days_before_month, days_before_year, ordinal}
use billgen.DatePicker.Grid.{year_length, months_length}
use billgen.Overdue.{LocalDay}

-- A day of the calendar, from the year 100 on.
pub record IsDay (t : LocalDay) : Type 0 where
  pub year_in : 100 ≤ t.year
  pub month_in : t.month ≤ 11
  pub day_in : (1 ≤ t.day) × (t.day ≤ days_in_month t.year t.month)

-- The days that the calendar has up to a date.
abbrev pub day_number : LocalDay → ℕ
day_number t = ordinal t.year t.month t.day

-- One date before another, as years, months and days compare.
abbrev pub is_before : LocalDay → LocalDay → Bool
is_before a b =
    ltb a.year b.year
    || (a.year == b.year) && (ltb a.month b.month || (a.month == b.month) && ltb a.day b.day)

abbrev length_of : ℕ → ℕ
length_of y = if is_leap y then 366 else 365

next_year : (y : ℕ) → 1 ≤ y → days_before_year (suc y) ≡ days_before_year y + length_of y
next_year y h = let e : suc y ≡ y + 1 = omega arith in rw e (year_length y h)

later_years : (y z : ℕ) → 1 ≤ y → y < z → days_before_year y + length_of y ≤ days_before_year z
later_years y zero h k = ground arith
later_years y (suc w) h k = elim (Bool-cases (y == w)) [
  | inl e ↦
      let same : y ≡ w = ground (arith, e) in
      rw same (omega (arith, next_year w (omega (arith, same))))
  | inr e ↦
      let earlier : y < w = ground (arith, e) in
      omega (arith, later_years y w h earlier, next_year w (omega arith))
]

later_months :
    (y m z : ℕ) → m < z → days_before_month y m + days_in_month y m ≤ days_before_month y z
unfolding days_before_month
later_months y m zero h = ground arith
later_months y m (suc w) h = elim (Bool-cases (m == w)) [
  | inl e ↦ let same : m ≡ w = ground (arith, e) in rw same (omega arith)
  | inr e ↦ let earlier : m < w = ground (arith, e) in omega (arith, later_months y m w earlier)
]

within_year : (y m d : ℕ) → m ≤ 11 → d ≤ days_in_month y m → days_before_month y m + d ≤ length_of y
within_year y m d h k = elim (Bool-cases (m == 11)) [
  | inl e ↦
      let december : m ≡ 11 = ground (arith, e) in
      omega (arith, months_length y, rw december at k, ap (days_before_month y) december)
  | inr e ↦
      let earlier : m < 11 = ground (arith, e) in
      omega (arith, months_length y, later_months y m 11 earlier)
]

module _ (a b : LocalDay) (v : IsDay a) (w : IsDay b) where
  year-before : a.year < b.year → day_number a < day_number b
  unfolding ordinal
  year-before h = omega (
    arith,
    within_year a.year a.month a.day v.month_in v.day_in.1,
    later_years a.year b.year (omega (arith, v.year_in)) h,
    w.day_in.0,
  )

  month-before : a.year ≡ b.year → a.month < b.month → day_number a < day_number b
  unfolding ordinal
  month-before e h = omega (
    arith,
    v.day_in.1,
    w.day_in.0,
    later_months a.year a.month b.month h,
    ap days_before_year e,
    ap (λ (y : ℕ). days_before_month y b.month) e,
  )

  day-before : a.year ≡ b.year → a.month ≡ b.month → a.day < b.day → day_number a < day_number b
  unfolding ordinal
  day-before e f h = omega (
    arith,
    h,
    ap days_before_year e,
    ap (λ (y : ℕ). days_before_month y b.month) e,
    ap (λ (m : ℕ). days_before_month a.year m) f,
  )

  -- Days are numbered in the order of their dates.
  before-number : is_before a b ≡ true → day_number a < day_number b
  before-number h = elim (Bool-cases (ltb a.year b.year)) [
    | inl e ↦ year-before (ltb→lt a.year b.year e)
    | inr e ↦ elim (Bool-cases (ltb a.month b.month)) [
      | inl f ↦ month-before (ground (arith, h, e)) (ltb→lt a.month b.month f)
      | inr f ↦
          day-before (ground (arith, h, e, f)) (ground (arith, h, e, f)) (ground (arith, h, e, f))
    ]
  ]

same-number :
    (a b : LocalDay)
    → a.year ≡ b.year
    → a.month ≡ b.month
    → a.day ≡ b.day
    → day_number a ≡ day_number b
unfolding ordinal
same-number a b e f g = omega (
  arith,
  g,
  ap days_before_year e,
  ap (λ (y : ℕ). days_before_month y b.month) e,
  ap (λ (m : ℕ). days_before_month a.year m) f,
)

-- Of two days one is before the other, or they are the same.
is_before-cases :
    (a b : LocalDay)
    → is_before a b ≡ false
    → (is_before b a ≡ true) ⊎ ((a.year ≡ b.year) × (a.month ≡ b.month) × (a.day ≡ b.day))
is_before-cases a b h = elim (Bool-cases (is_before b a)) [
  | inl e ↦ inl e
  | inr e ↦ inr (ground (arith, h, e), ground (arith, h, e), ground (arith, h, e))
]

not_before-number :
    (a b : LocalDay) → IsDay a → IsDay b → is_before a b ≡ false → day_number b ≤ day_number a
not_before-number a b v w h = elim (is_before-cases a b h) [
  | inl later ↦ omega (arith, before-number b a w v later)
  | inr (e, f, g) ↦ omega (arith, same-number a b e f g)
]

not_less : (m n : ℕ) → n ≤ m → ltb m n ≡ false
not_less m n h = ground arith

pub number-order :
    (a b : LocalDay) → IsDay a → IsDay b → ltb (day_number a) (day_number b) ≡ is_before a b
number-order a b v w = elim (Bool-cases (is_before a b)) [
  | inl e ↦ lt→ltb (day_number a) (day_number b) (before-number a b v w e) ∙ sym e
  | inr e ↦ not_less (day_number a) (day_number b) (not_before-number a b v w e) ∙ sym e
]
