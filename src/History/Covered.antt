-- ===== src/History/Covered.antt =====
-- What the pages of frontend-react/src/panels/HistoryPanel.tsx show together.
use billgen.Prelude.{
  ℕ, zero, suc, ◌+◌, ◌-◌, ◌*◌, ◌/◌, max, true, List, [], ◌∷◌, ◌++◌, ◌≡◌, refl, sym, ◌∙◌, ap, length,
  leb, ltb, arith, ◌≤◌,
}
use billgen.History.Pages.{page_size, take, drop, page_count, visible, up_to, has_row}

suc_add : (m n : ℕ) → suc m + n ≡ suc (m + n)
suc_add m n = omega arith

-- The bounds of a page, and how many pages there are.
page_end : (n : ℕ) → n * page_size + (suc n * page_size - n * page_size) ≡ suc n * page_size
page_end n = omega arith

page_width : (n : ℕ) → suc n * page_size - n * page_size ≡ 25
page_width n = omega arith

page_start : (n : ℕ) → suc n - 1 ≡ n
page_start n = omega arith

pages_enough : (n : ℕ) → n ≤ max 1 ((n + (page_size - 1)) / page_size) * page_size
pages_enough n = omega arith

page_within :
    (n l : ℕ)
    → 1 ≤ l
    → ltb (n * page_size) l ≡ leb (suc n) (max 1 ((l + (page_size - 1)) / page_size))
page_within n l h = ground arith

module _ {ℓ} {A : Type ℓ} where
  take-add : (m n : ℕ) (xs : List A) → take (m + n) xs ≡ take m xs ++ take n (drop m xs)
  take-add m n [] = refl
  take-add zero n (x ∷ xs) = ap (λ (k : ℕ). take k (x ∷ xs)) (omega arith)
  take-add (suc m) n (x ∷ xs) =
      ap (λ (k : ℕ). take k (x ∷ xs)) (suc_add m n) ∙ ap (λ l. x ∷ l) (take-add m n xs)

  take-all : (n : ℕ) (xs : List A) → length xs ≤ n → take n xs ≡ xs
  take-all n [] h = refl
  take-all zero (x ∷ xs) h = ground arith
  take-all (suc n) (x ∷ xs) h = ap (λ l. x ∷ l) (take-all n xs (omega arith))

  visible-slice :
      (n : ℕ) (rows : List A) → visible (suc n) rows ≡ take 25 (drop (n * page_size) rows)
  unfolding visible
  visible-slice n rows =
      rw (page_start n) (ap (λ (k : ℕ). take k (drop (n * page_size) rows)) (page_width n))

  take-zero : (rows : List A) → [] ≡ take 0 rows
  take-zero [] = refl
  take-zero (x ∷ xs) = refl

  up_to-take : (n : ℕ) (rows : List A) → up_to n rows ≡ take (n * page_size) rows
  up_to-take zero rows = take-zero rows ∙ ap (λ (k : ℕ). take k rows) (omega arith)
  up_to-take (suc n) rows =
      ap (λ l. l ++ visible (suc n) rows) (up_to-take n rows)
      ∙ ap (λ l. take (n * page_size) rows ++ l) (visible-slice n rows)
      ∙ sym (take-add (n * page_size) 25 rows)
      ∙ ap (λ (k : ℕ). take k rows) (omega arith)

  has_row-drop : (n : ℕ) (rows : List A) → has_row (drop n rows) ≡ ltb n (length rows)
  has_row-drop n [] = ground arith
  has_row-drop zero (x ∷ xs) = ground arith
  has_row-drop (suc n) (x ∷ xs) = has_row-drop n xs ∙ ground arith

  has_row-take : (n : ℕ) (rows : List A) → has_row (take (suc n) rows) ≡ has_row rows
  has_row-take n [] = refl
  has_row-take n (x ∷ xs) = refl

  some_row : (rows : List A) → has_row rows ≡ true → 1 ≤ length rows
  some_row [] h = cc
  some_row (x ∷ xs) h = omega arith

  has_row-visible :
      (n : ℕ) (rows : List A)
      → has_row rows ≡ true
      → has_row (visible (suc n) rows) ≡ leb (suc n) (page_count rows)
  unfolding page_count
  has_row-visible n rows h =
      ap has_row (visible-slice n rows)
      ∙ has_row-take 24 (drop (n * page_size) rows)
      ∙ has_row-drop (n * page_size) rows
      ∙ page_within n (length rows) (some_row rows h)

  -- The pages show every row of the table once, in order. Where there is a row, each of them shows
  -- one, and a page behind the last, as the panel keeps it when its list shrinks, shows none.
  pub up_to-page_count :
      (n : ℕ) (rows : List A)
      → has_row rows ≡ true
      → (up_to (page_count rows) rows ≡ rows)
        × (has_row (visible (suc n) rows) ≡ leb (suc n) (page_count rows))
  unfolding page_count
  up_to-page_count n rows h = (
    up_to-take (page_count rows) rows
        ∙ take-all (page_count rows * page_size) rows (pages_enough (length rows)),
    has_row-visible n rows h,
  )
