-- ===== src/Pagination.antt =====
-- `pageEntries` of henrioutai-ui/src/components/Pagination.tsx. Pages are natural numbers; a window that
-- starts below page 1 starts at 0 here, and what is below 1 is dropped in either.
pub mod Order
pub mod Row
mod Scenarios
use billgen.Prelude.{
  ℕ, zero, suc, ◌+◌, ◌-◌, Bool, true, false, ◌&&◌, List, [], ◌∷◌, ◌++◌, ◌==◌, leb, ltb, any, filter,
  if◌then◌else◌,
}

pub data PageEntry : Type 0 where
  number : ℕ → PageEntry
  gap_left gap_right : PageEntry

-- `wanted.add(p)`: a set keeps the order in which its members came.
abbrev pub added : List ℕ → ℕ → List ℕ
added ps p = if any (λ q. q == p) ps then ps else ps ++ (p ∷ [])

abbrev pub all_added : List ℕ → List ℕ → List ℕ
all_added ps [] = ps
all_added ps (q ∷ qs) = all_added (added ps q) qs

abbrev pub counted : ℕ → ℕ → List ℕ
counted from zero = []
counted from (suc n) = from ∷ counted (suc from) n

abbrev pub page_window : ℕ → ℕ → ℕ → List ℕ
page_window page page_count siblings =
    filter (λ p. leb 1 p && leb p page_count)
      (counted (page - siblings) (suc (page + siblings) - (page - siblings)))

abbrev pub wanted : ℕ → ℕ → ℕ → List ℕ
wanted page page_count siblings =
    all_added (added (1 ∷ []) page_count) (page_window page page_count siblings)

-- `sort((a, b) => a - b)`
abbrev pub inserted : ℕ → List ℕ → List ℕ
inserted x [] = x ∷ []
inserted x (y ∷ ys) = let rest = inserted x ys in if leb x y then x ∷ y ∷ ys else y ∷ rest

abbrev pub sorted : List ℕ → List ℕ
sorted [] = []
sorted (x ∷ xs) = inserted x (sorted xs)

-- What stands between a page and the one before it, and the page.
abbrev pub entry_after : ℕ → ℕ → ℕ → List PageEntry → List PageEntry
entry_after page prev current rest =
    if current == prev + 2
    then number (prev + 1) ∷ number current ∷ rest
    else if ltb (prev + 2) current
    then (if ltb current page then gap_left else gap_right) ∷ number current ∷ rest
    else number current ∷ rest

abbrev pub entries_from : ℕ → ℕ → List ℕ → List PageEntry
entries_from page prev [] = []
entries_from page prev (c ∷ cs) = entry_after page prev c (entries_from page c cs)

abbrev pub entries : ℕ → List ℕ → List PageEntry
entries page [] = []
entries page (c ∷ cs) = number c ∷ entries_from page c cs

unfoldable pub page_entries : ℕ → ℕ → ℕ → List PageEntry
page_entries page page_count siblings = entries page (sorted (wanted page page_count siblings))
