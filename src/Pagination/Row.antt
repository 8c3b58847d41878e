-- ===== src/Pagination/Row.antt =====
-- The row of pages of henrioutai-ui/src/components/Pagination.tsx.
use billgen.Prelude.{
  ℕ, suc, ◌+◌, ◌<◌, ◌≤◌, Bool, true, false, ◌||◌, List, [], ◌∷◌, ◌==◌, ltb, any, ◌≡◌, refl, ◌∙◌,
  arith, Bool-cases, inl, inr,
}
use billgen.Pagination.{
  PageEntry, number, gap_left, gap_right, added, page_window, wanted, sorted, entry_after,
  entries_from, entries, page_entries,
}
use billgen.Pagination.Order.{
  IsAscending, all_added-IsDistinct, added-IsDistinct, sorted-IsAscending, any-sorted-same,
  any-added-last, any-added-left, any-all_added, any-all_added-right, any-page_window, later_member,
}

-- After a page there is the next one, or a gap that hides at least two.
abbrev pub IsTight : ℕ → List PageEntry → Type 0
IsTight prev [] = Unit
IsTight prev (number n ∷ es) = (n ≡ suc prev) × IsTight n es
IsTight prev (gap_left ∷ number n ∷ es) = (prev + 2 < n) × IsTight n es
IsTight prev (gap_right ∷ number n ∷ es) = (prev + 2 < n) × IsTight n es
IsTight prev (gap_left ∷ _) = ⊥
IsTight prev (gap_right ∷ _) = ⊥

abbrev pub IsRow : List PageEntry → Type 0
IsRow [] = Unit
IsRow (number n ∷ es) = IsTight n es
IsRow (_ ∷ es) = ⊥

entry_after-IsTight :
    (page prev c : ℕ) (rest : List PageEntry)
    → prev < c
    → IsTight c rest
    → IsTight prev (entry_after page prev c rest)
entry_after-IsTight page prev c rest h k = elim (Bool-cases (c == prev + 2)) [
  | inl e ↦ simp e (omega arith, (ground (arith, e), k))
  | inr e ↦ simp e (elim (Bool-cases (ltb (prev + 2) c)) [
    | inl f ↦ simp f (elim (Bool-cases (ltb c page)) [
      | inl g ↦ simp g (ground (arith, f), k)
      | inr g ↦ simp g (ground (arith, f), k)
    ])
    | inr f ↦ simp f (ground (arith, e, f, h), k)
  ])
]

entries_from-IsTight :
    (page prev : ℕ) (cs : List ℕ)
    → IsAscending (prev ∷ cs)
    → IsTight prev (entries_from page prev cs)
entries_from-IsTight page prev [] h = tt
entries_from-IsTight page prev (c ∷ cs) (less, h) =
    entry_after-IsTight page prev c (entries_from page c cs) less (entries_from-IsTight page c cs h)

entries-IsRow : (page : ℕ) (cs : List ℕ) → IsAscending cs → IsRow (entries page cs)
entries-IsRow page [] h = tt
entries-IsRow page (c ∷ cs) h = entries_from-IsTight page c cs h

abbrev is_number : ℕ → PageEntry → Bool
is_number z (number n) = n == z
is_number z gap_left = false
is_number z gap_right = false

-- The page has a button in the row.
abbrev pub stands : ℕ → List PageEntry → Bool
stands z es = any (is_number z) es

stands-entry_after :
    (page prev c z : ℕ) (rest : List PageEntry)
    → (c == z) || stands z rest ≡ true
    → stands z (entry_after page prev c rest) ≡ true
stands-entry_after page prev c z rest h = elim (Bool-cases (c == prev + 2)) [
  | inl e ↦ simp e (ground (arith, h))
  | inr e ↦ simp e (elim (Bool-cases (ltb (prev + 2) c)) [
    | inl f ↦ simp f (elim (Bool-cases (ltb c page)) [ inl g ↦ simp g h | inr g ↦ simp g h ])
    | inr f ↦ simp f h
  ])
]

stands-entries_from :
    (page prev z : ℕ) (cs : List ℕ)
    → any (λ q. q == z) cs ≡ true
    → stands z (entries_from page prev cs) ≡ true
stands-entries_from page prev z [] h = cc
stands-entries_from page prev z (c ∷ cs) h =
    stands-entry_after page prev c z (entries_from page c cs) (elim (Bool-cases (c == z)) [
      | inl e ↦ simp e
      | inr e ↦ simp e (stands-entries_from page c z cs (later_member c z cs h e))
    ])

stands-entries :
    (page z : ℕ) (cs : List ℕ) → any (λ q. q == z) cs ≡ true → stands z (entries page cs) ≡ true
stands-entries page z [] h = cc
stands-entries page z (c ∷ cs) h = elim (Bool-cases (c == z)) [
  | inl e ↦ simp e
  | inr e ↦ simp e (stands-entries_from page c z cs (later_member c z cs h e))
]

row_has :
    (page page_count siblings z : ℕ)
    → any (λ q. q == z) (wanted page page_count siblings) ≡ true
    → stands z (page_entries page page_count siblings) ≡ true
unfolding page_entries
row_has page page_count siblings z h =
    stands-entries page z (sorted (wanted page page_count siblings))
      (any-sorted-same z (wanted page page_count siblings) ∙ h)

sorted-IsRow : (page page_count siblings : ℕ) → IsRow (page_entries page page_count siblings)
unfolding page_entries
sorted-IsRow page page_count siblings =
    entries-IsRow page (sorted (wanted page page_count siblings)) (
      sorted-IsAscending (wanted page page_count siblings) (
        all_added-IsDistinct (page_window page page_count siblings) (added (1 ∷ []) page_count)
          (added-IsDistinct (1 ∷ []) page_count (refl, tt))))

-- Where the current page is one of the pages: the row has the first page, the last and the current
-- one, and after each of its pages there stands the next page, or a gap that hides at least two pages
-- and is followed by a page.
pub page_entries-IsRow :
    (page page_count siblings : ℕ)
    → 1 ≤ page
    → page ≤ page_count
    → let row = page_entries page page_count siblings in
      IsRow row × (stands 1 row ≡ true) × (stands page_count row ≡ true) × (stands page row ≡ true)
page_entries-IsRow page page_count siblings h k = (
  sorted-IsRow page page_count siblings,
  row_has page page_count siblings 1 (
      any-all_added 1 (page_window page page_count siblings) (added (1 ∷ []) page_count)
        (any-added-left 1 page_count (1 ∷ []) refl)),
  row_has page page_count siblings page_count (
      any-all_added page_count (page_window page page_count siblings) (added (1 ∷ []) page_count)
        (any-added-last page_count (1 ∷ []))),
  row_has page page_count siblings page (
      any-all_added-right page (page_window page page_count siblings) (added (1 ∷ []) page_count)
        (any-page_window page page_count siblings h k)),
)
