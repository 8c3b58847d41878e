-- ===== src/DatePicker/Keys.antt =====
-- The arrow keys of henrioutai-ui/src/components/DatePicker.tsx.
use billgen.Prelude.{
  ℕ, zero, suc, ◌+◌, ◌-◌, ◌≤◌, ◌<◌, Bool, true, false, ◌&&◌, ◌∷◌, none, some, ◌≡◌, refl, sym, ap,
  ◌∙◌, arith, Bool-cases, inl, inr, filter, get_elem?, leb, ltb, ◌==◌, if◌then◌else◌,
}
use mathlib.Core.Option.{some-injective}
use billgen.DatePicker.{
  Month, days_from, Bounds, not_before, not_after, in_bounds, to_iso, enabled, days_in_month,
  is_leap, Arrow, left, right, up, down, target,
}
use billgen.DatePicker.Texts.{not_before-suc, not_after-suc}

-- The numbers of a stretch of n from s on, and of those the ones that pass a test.
abbrev within : ℕ → ℕ → ℕ → Bool
within s n e = leb s e && ltb e (s + n)

abbrev chosen : (ℕ → Bool) → ℕ → ℕ → ℕ → Bool
chosen test s n e = within s n e && test e

-- The numbers that pass are a stretch themselves.
record IsStretch (test : ℕ → Bool) (s n first count : ℕ) : Type 0 where
  pub listed : filter test (days_from s n) ≡ days_from first count
  pub exact : (e : ℕ) → chosen test s n e ≡ within first count e

module _ (test : ℕ → Bool) where
  skip : (s n e : ℕ) → test s ≡ false → chosen test s (suc n) e ≡ chosen test (suc s) n e
  skip s n e h = elim (Bool-cases (e == s)) [
    | inl same ↦ let at : e ≡ s = ground (arith, same) in rw (at, h) (ground arith)
    | inr other ↦ ground (arith, other)
  ]

  take :
      (s n k e : ℕ)
      → test s ≡ true
      → chosen test (suc s) n e ≡ within (suc s) k e
      → chosen test s (suc n) e ≡ within s (suc k) e
  take s n k e h i = elim (Bool-cases (e == s)) [
    | inl same ↦ let at : e ≡ s = ground (arith, same) in rw (at, h) (ground arith)
    | inr other ↦ ground (arith, other, i)
  ]

  empty : (s : ℕ) → IsStretch test s 0 s 0
  empty s = record { listed = refl; exact = λ e. ground arith }

  skipped :
      (s n first count : ℕ)
      → test s ≡ false
      → IsStretch test (suc s) n first count
      → IsStretch test s (suc n) first count
  skipped s n first count h i = record {
    listed = simp h i.listed;
    exact = λ e. skip s n e h ∙ i.exact e;
  }

  taken :
      (s n count : ℕ)
      → test s ≡ true
      → IsStretch test (suc s) n (suc s) count
      → IsStretch test s (suc n) s (suc count)
  taken s n count h i = record {
    listed = simp h (ap (λ l. s ∷ l) i.listed);
    exact = λ e. take s n count e h (i.exact e);
  }

  rebased : (s n first : ℕ) → IsStretch test s n first 0 → IsStretch test s n s 0
  rebased s n first i = record { listed = i.listed; exact = λ e. i.exact e ∙ ground arith }

outside : (a : Bool) {c : Bool} → c ≡ false → (a && c) ≡ false
outside true h = h
outside false h = refl

module _ (b : Bounds) (v : Month) where
  abbrev can_choose : ℕ → Bool
  can_choose d = in_bounds b (to_iso v d)

  past :
      (s n : ℕ) → s + n ≤ 40 → not_after b.max (to_iso v s) ≡ false → IsStretch can_choose s n s 0
  past s zero k h = empty can_choose s
  past s (suc n) k h =
      let next : not_after b.max (to_iso v (suc s)) ≡ false =
        not_after-suc b.max v s (omega arith) h in
      rebased can_choose s (suc n) (suc s) (
        skipped can_choose s n (suc s) 0 (outside (not_before b.min (to_iso v s)) h)
          (past (suc s) n (omega arith) next))

  started :
      (s n : ℕ)
      → s + n ≤ 40
      → not_before b.min (to_iso v s) ≡ true
      → (count : ℕ) × IsStretch can_choose s n s count
  started s zero k h = (0, empty can_choose s)
  started s (suc n) k h = elim (Bool-cases (not_after b.max (to_iso v s))) [
    | inl e ↦
        let (count, i) =
          started (suc s) n (omega arith) (not_before-suc b.min v s (omega arith) h) in
        (suc count, taken can_choose s n count (simp (h, e) refl) i)
    | inr e ↦ (0, past s (suc n) k e)
  ]

  stretch :
      (s n : ℕ) → s + n ≤ 40 → (first : ℕ) × (count : ℕ) × IsStretch can_choose s n first count
  stretch s zero k = (s, 0, empty can_choose s)
  stretch s (suc n) k = elim (Bool-cases (not_before b.min (to_iso v s))) [
    | inl e ↦ let (count, i) = started s (suc n) k e in (s, count, i)
    | inr e ↦
        let (first, count, i) = stretch (suc s) n (omega arith) in
        (first, count, skipped can_choose s n first count (simp e refl) i)
  ]

get_elem?-days_from :
    (first count i : ℕ)
    → get_elem? (days_from first count) i ≡ (if ltb i count then some (first + i) else none)
get_elem?-days_from first zero i = ground arith
get_elem?-days_from first (suc n) zero = ground arith
get_elem?-days_from first (suc n) (suc i) = get_elem?-days_from (suc first) n i ∙ ground arith

month_length : (y m : ℕ) → days_in_month y m ≤ 31
unfolding days_in_month is_leap
month_length y m = ground arith

-- The day that an arrow asks for: 0 where it lies before the month.
abbrev pub asked : Arrow → ℕ → ℕ
asked left d = d - 1
asked right d = d + 1
asked up d = d - 7
asked down d = d + 7

-- A day of the month that is within the owner's bounds.
abbrev pub is_enabled : Bounds → Month → ℕ → Bool
is_enabled b v d = leb 1 d && leb d (days_in_month v.year v.month) && in_bounds b (to_iso v d)

listed_at :
    (first count i d : ℕ)
    → get_elem? (days_from first count) i ≡ some d
    → (i < count) × (d ≡ first + i)
listed_at first count i d h =
    let e : (if ltb i count then some (first + i) else none) ≡ some d =
      sym (get_elem?-days_from first count i) ∙ h in
    elim (Bool-cases (ltb i count)) [
      | inl inside ↦ (ground (arith, inside), sym (some-injective _ _ (simp inside at e)))
      | inr beyond ↦ cc (simp beyond at e)
    ]

target-days_from :
    (arrow : Arrow) (first count i : ℕ)
    → 1 ≤ first
    → i < count
    → target arrow (days_from first count) (some i) ≡ (
        if within first count (asked arrow (first + i))
        then some (asked arrow (first + i))
        else none)
unfolding target
target-days_from left first count i h k = elim (Bool-cases (i == 0)) [
  | inl e ↦ simp e (ground (arith, e, h))
  | inr e ↦ simp (e, get_elem?-days_from first count (i - 1)) (ground (arith, e))
]
target-days_from right first count i h k =
    rw (get_elem?-days_from first count (i + 1)) (ground arith)
target-days_from up first count i h k = elim (Bool-cases (leb 7 i)) [
  | inl e ↦ simp (e, get_elem?-days_from first count (i - 7)) (ground (arith, e))
  | inr e ↦ simp e (ground (arith, e, h))
]
target-days_from down first count i h k =
    rw (get_elem?-days_from first count (i + 7)) (ground arith)

first_listed :
    (test : ℕ → Bool) (n first count : ℕ) → IsStretch test 1 n first count → 1 ≤ count → 1 ≤ first
first_listed test n first count i h =
    let e : chosen test 1 n first ≡ within first count first = i.exact first in ground (arith, e, h)

whole : (n e : ℕ) (test : Bool) → (within 1 n e && test) ≡ (leb 1 e && leb e n && test)
whole n e test = ground arith

target-stretch :
    (test : ℕ → Bool) (n first count i d : ℕ) (arrow : Arrow)
    → IsStretch test 1 n first count
    → get_elem? (filter test (days_from 1 n)) i ≡ some d
    → target arrow (filter test (days_from 1 n)) (some i) ≡ (
        if leb 1 (asked arrow d) && leb (asked arrow d) n && test (asked arrow d)
        then some (asked arrow d)
        else none)
target-stretch test n first count i d arrow s h =
    let (inside, at) = listed_at first count i d (rw s.listed at h) in
    rw
      (
        s.listed,
        at,
        sym (whole n (asked arrow (first + i)) (test (asked arrow (first + i)))),
        s.exact (asked arrow (first + i)),
      )
      (target-days_from arrow first count i (first_listed test n first count s (omega arith))
        inside)

-- From a day that has the focus an arrow moves it to the day before or after, or a week before or
-- after, where that day is in the month that is shown and within the owner's bounds, and else nowhere.
pub target-day :
    (arrow : Arrow) (b : Bounds) (v : Month) (i d : ℕ)
    → get_elem? (enabled b v) i ≡ some d
    → target arrow (enabled b v) (some i)
      ≡ (if is_enabled b v (asked arrow d) then some (asked arrow d) else none)
unfolding enabled
target-day arrow b v i d h =
    let n = days_in_month v.year v.month in
    let (first, count, s) = stretch b v 1 n (omega (arith, month_length v.year v.month)) in
    target-stretch (λ e. in_bounds b (to_iso v e)) n first count i d arrow s h
