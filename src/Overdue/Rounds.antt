-- ===== src/Overdue/Rounds.antt =====
-- The difference of two dates in frontend-react/src/lib/invoiceStatus.ts, against the calendar.
use Prim.Native.Nat.{◌%◌}
use Prim.Native.Char.{code}
use Prim.Native.String.{String, [], ◌∷◌, ◌++◌}
use Prim.Native.String.append
use mathlib.Core.Path.{subst}
use text.Mathlib.TextEquality.{eq_iff}
use billgen.Prelude.{
  ℕ, ◌+◌, ◌-◌, ◌*◌, ◌/◌, ◌≤◌, ◌<◌, Bool, true, false, ◌||◌, [], ◌∷◌, Option, none, some, ◌≡◌, refl,
  ap, ◌∙◌, arith, Bool-cases, inl, inr, ◌===◌, ◌==◌, ltb, if◌then◌else◌, All,
}
use billgen.DatePicker.{full_year}
use billgen.Overdue.{
  LocalDay, is_receivable, split, date_number, rounded_days, late, local_day, late_since,
  days_overdue,
}
use billgen.Overdue.Order.{IsDay, day_number, is_before, number-order}

abbrev pub has_dash : String → Bool
has_dash [] = false
has_dash (c ∷ s) = code c == 45 || has_dash s

neither : (a b : Bool) → (a || b) ≡ false → (a ≡ false) × (b ≡ false)
neither a b h = ground arith

split-part : (s u : String) → has_dash s ≡ false → split (s ++ ("-" ++ u)) ≡ s ∷ split u
unfolding split
split-part [] u h = rw (append.nil ("-" ++ u)) (rw (append.cons "-" "" u, append.nil u) refl)
split-part (c ∷ s) u h =
    let (here, later) = neither (code c == 45) (has_dash s) h in
    rw (append.cons c s ("-" ++ u)) (simp (here, split-part s u later) refl)

split-last : (s : String) → has_dash s ≡ false → split s ≡ s ∷ []
unfolding split
split-last [] h = refl
split-last (c ∷ s) h =
    let (here, later) = neither (code c == 45) (has_dash s) h in
    simp (here, split-last s later) refl

full_year-same : (y : ℕ) → 100 ≤ y → full_year y ≡ y
unfolding full_year
full_year-same y h = ground arith

date_number-day : (t : LocalDay) → IsDay t → date_number t.year (t.month + 1) t.day ≡ day_number t
unfolding date_number
date_number-day t h =
    let later : (t.month + 1 == 0) ≡ false = ground arith in
    let no_carry : t.year + (t.month + 1 - 1) / 12 ≡ t.year = omega (arith, h.month_in) in
    let same_month : (t.month + 1 - 1) % 12 ≡ t.month = omega (arith, h.month_in) in
    simp later (rw (full_year-same t.year h.year_in) (rw no_carry (rw same_month refl)))

-- The midnights of a local time zone are a day apart, give or take a change of less than half a day.
abbrev pub IsMidnight : (ℕ → ℕ) → ℕ → Type 0
IsMidnight midnight n = (86400000 * n ≤ midnight n) × (midnight n < 86400000 * n + 43200000)

quotient :
    (due now u t : ℕ)
    → (86400000 * u ≤ due) × (due < 86400000 * u + 43200000)
    → (86400000 * t ≤ now) × (now < 86400000 * t + 43200000)
    → u < t
    → (now - due + 43200000) / 86400000 ≡ t - u
quotient due now u t (a, b) (c, d) h = omega (arith, a, b, c, d, h)

difference :
    (midnight : ℕ → ℕ) (u t : ℕ)
    → IsMidnight midnight u
    → IsMidnight midnight t
    → rounded_days (midnight u) (midnight t) ≡ (if ltb u t then t - u else 0)
unfolding rounded_days
difference midnight u t h k = elim (Bool-cases (ltb u t)) [
  | inl e ↦
      let before : u < t = ground (arith, e) in
      let instants : ltb (midnight u) (midnight t) ≡ true = ground (arith, before, h, k) in
      simp (e, instants) (quotient (midnight u) (midnight t) u t h k before)
  | inr e ↦ elim (Bool-cases (u == t)) [
    | inl f ↦
        let same : u ≡ t = ground (arith, f) in
        let instants : ltb (midnight u) (midnight t) ≡ false = rw same (ground arith) in
        simp (e, instants) refl
    | inr f ↦
        let instants : ltb (midnight u) (midnight t) ≡ false = ground (arith, e, f, h, k) in
        simp (e, instants) refl
  ]
]

late-difference :
    (midnight : ℕ → ℕ) (u t : ℕ)
    → IsMidnight midnight u
    → IsMidnight midnight t
    → late (midnight u) (midnight t) ≡ (if ltb u t then some (t - u) else none)
late-difference midnight u t h k = rw (difference midnight u t h k) (ground arith)

never_late : (r : Bool) (o : Option ℕ) → o ≡ none → (if r then o else none) ≡ none
never_late true o h = h
never_late false o h = refl

has_dash-behind : (s u : String) → has_dash (s ++ ("-" ++ u)) ≡ true
has_dash-behind [] u = rw (append.nil ("-" ++ u)) (rw (append.cons "-" "" u) refl)
has_dash-behind (c ∷ s) u = rw (append.cons c s ("-" ++ u)) (ground (arith, has_dash-behind s u))

-- The text of a date: a year, a month from one on and a day, each as `Number` reads it.
pub record IsText (number : String → Option ℕ) (iso : String) (t : LocalDay) : Type 0 where
  pub year_text : String
  pub month_text : String
  pub day_text : String
  pub iso_in : iso ≡ year_text ++ ("-" ++ (month_text ++ ("-" ++ day_text)))
  pub dashes_in :
      (has_dash year_text ≡ false) × (has_dash month_text ≡ false) × (has_dash day_text ≡ false)
  pub year_in : number year_text ≡ some t.year
  pub month_in : number month_text ≡ some (t.month + 1)
  pub day_in : number day_text ≡ some t.day

module _ (number : String → Option ℕ) (midnight : ℕ → ℕ) where
  local_day-text :
      (iso : String) (t : LocalDay)
      → IsDay t
      → IsText number iso t
      → local_day number midnight iso ≡ some (midnight (day_number t))
  unfolding local_day
  local_day-text iso t v h =
      let (y, m, d) = h.dashes_in in
      rw h.iso_in (
        rw (split-part h.year_text _ y) (
          rw (split-part h.month_text h.day_text m) (
            rw (split-last h.day_text d)
              (rw (h.year_in, h.month_in, h.day_in) (rw (date_number-day t v) refl)))))

  not_empty : (iso : String) (t : LocalDay) → IsText number iso t → (iso === "") ≡ false
  not_empty iso t h = elim (Bool-cases (iso === "")) [
    | inl e ↦
        let dashed : has_dash iso ≡ true = rw h.iso_in (has_dash-behind h.year_text _) in
        cc (subst (λ s. has_dash s ≡ true) ((eq_iff iso "").0 e) dashed)
    | inr e ↦ e
  ]

  -- What the calendar says: so many days, where there are any.
  abbrev pub calendar_days : LocalDay → LocalDay → Option ℕ
  calendar_days due today =
      if is_before due today then some (day_number today - day_number due) else none

  late_since-calendar :
      (iso : String) (due today : LocalDay)
      → IsText number iso due
      → IsDay due
      → IsDay today
      → ((n : ℕ) → IsMidnight midnight n)
      → late_since number midnight (some iso) today ≡ calendar_days due today
  late_since-calendar iso due today h v w zone = simp (not_empty iso due h) (
      rw (local_day-text iso due v h) (
        rw (date_number-day today w) (
          late-difference midnight (day_number due) (day_number today) (zone (day_number due))
            (zone (day_number today))
          ∙ ap (λ (c : Bool). if c then some (day_number today - day_number due) else none)
              (number-order due today v w))))

  -- An invoice that is issued, partially paid or overdue is late from the day after it is due, as its
  -- date and the day's compare, by as many days as the calendar has between them, also where the clock
  -- is changed between them; a draft, a paid and a voided one is never late, nor is one that has no due
  -- date, or an empty one, whatever its status. The conditions are that the due date's text is a year,
  -- a month and a day with dashes between them, each as `Number` reads it, that both dates are days of
  -- the calendar from the year 100 on, and that the offset of the time zone varies by less than half a
  -- day.
  pub days_overdue-calendar :
      (status iso : String) (due today : LocalDay)
      → IsText number iso due
      → IsDay due
      → IsDay today
      → ((n : ℕ) → IsMidnight midnight n)
      → All
          (λ s. days_overdue number midnight s (some iso) today ≡ calendar_days due today)
          ("issued" ∷ "partially_paid" ∷ "overdue" ∷ [])
        × All
            (λ s. days_overdue number midnight s (some iso) today ≡ none)
            ("draft" ∷ "paid" ∷ "voided" ∷ [])
        × (days_overdue number midnight status none today ≡ none)
        × (days_overdue number midnight status (some "") today ≡ none)
  unfolding days_overdue is_receivable
  days_overdue-calendar status iso due today h v w zone =
      let counted = late_since-calendar iso due today h v w zone in
      (
        (counted, (counted, (counted, tt))),
        (refl, (refl, (refl, tt))),
        never_late (is_receivable status) none refl,
        never_late (is_receivable status) none refl,
      )
