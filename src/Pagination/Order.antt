-- ===== src/Pagination/Order.antt =====
-- The set of wanted pages of henrioutai-ui/src/components/Pagination.tsx, sorted.
use billgen.Prelude.{
  ℕ, zero, suc, ◌+◌, ◌-◌, ◌<◌, ◌≤◌, Bool, true, false, ◌||◌, ◌&&◌, List, [], ◌∷◌, ◌++◌, ◌==◌, leb,
  any, filter, ◌≡◌, refl, ap, sym, ◌∙◌, arith, Bool-cases, inl, inr,
}
use billgen.Pagination.{added, all_added, page_window, counted, inserted, sorted}

abbrev pub IsAscending : List ℕ → Type 0
IsAscending [] = Unit
IsAscending (x ∷ []) = Unit
IsAscending (x ∷ y ∷ ys) = (x < y) × IsAscending (y ∷ ys)

abbrev pub IsDistinct : List ℕ → Type 0
IsDistinct [] = Unit
IsDistinct (x ∷ xs) = (any (λ q. q == x) xs ≡ false) × IsDistinct xs

any-added :
    (xs : List ℕ) (x p : ℕ)
    → any (λ q. q == x) xs ≡ false
    → (p == x) ≡ false
    → any (λ q. q == x) (xs ++ (p ∷ [])) ≡ false
any-added [] x p h k = simp k
any-added (y ∷ ys) x p h k = ground (arith, h, k, any-added ys x p)

append-IsDistinct :
    (xs : List ℕ) (p : ℕ)
    → IsDistinct xs
    → any (λ q. q == p) xs ≡ false
    → IsDistinct (xs ++ (p ∷ []))
append-IsDistinct [] p h k = (refl, tt)
append-IsDistinct (x ∷ xs) p (fresh, h) k =
    (any-added xs x p fresh (ground (arith, k)), append-IsDistinct xs p h (ground (arith, k)))

pub added-IsDistinct : (ps : List ℕ) (p : ℕ) → IsDistinct ps → IsDistinct (added ps p)
added-IsDistinct ps p h = elim (Bool-cases (any (λ q. q == p) ps)) [
  | inl e ↦ simp e h
  | inr e ↦ simp e (append-IsDistinct ps p h e)
]

pub all_added-IsDistinct : (qs ps : List ℕ) → IsDistinct ps → IsDistinct (all_added ps qs)
all_added-IsDistinct [] ps h = h
all_added-IsDistinct (q ∷ qs) ps h = all_added-IsDistinct qs (added ps q) (added-IsDistinct ps q h)

any-inserted :
    (x z : ℕ) (ys : List ℕ)
    → (x == z) ≡ false
    → any (λ q. q == z) ys ≡ false
    → any (λ q. q == z) (inserted x ys) ≡ false
any-inserted x z [] h k = simp h
any-inserted x z (y ∷ ys) h k = ground (arith, h, k, any-inserted x z ys)

any-sorted :
    (z : ℕ) (xs : List ℕ) → any (λ q. q == z) xs ≡ false → any (λ q. q == z) (sorted xs) ≡ false
any-sorted z [] h = refl
any-sorted z (x ∷ xs) h =
    any-inserted x z (sorted xs) (ground (arith, h)) (any-sorted z xs (ground (arith, h)))

lt_of : (x y : ℕ) → leb x y ≡ true → (y == x) ≡ false → x < y
lt_of x y h k = ground (arith, h, k)

gt_of : (x y : ℕ) → leb x y ≡ false → y < x
gt_of x y h = ground (arith, h)

later_part :
    (x z : ℕ) (zs : List ℕ)
    → leb x z ≡ false
    → IsAscending (inserted x (z ∷ zs))
    → IsAscending (z ∷ inserted x zs)
later_part x z zs f h = simp f at h

inserted-IsAscending :
    (x : ℕ) (ys : List ℕ)
    → any (λ q. q == x) ys ≡ false
    → IsAscending ys
    → IsAscending (inserted x ys)
inserted-IsAscending x [] h k = tt
inserted-IsAscending x (y ∷ []) h k = elim (Bool-cases (leb x y)) [
  | inl e ↦ simp e (lt_of x y e (ground (arith, h)), tt)
  | inr e ↦ simp e (gt_of x y e, tt)
]
inserted-IsAscending x (y ∷ z ∷ zs) h (yz, k) = elim (Bool-cases (leb x y)) [
  | inl e ↦ simp e (lt_of x y e (ground (arith, h)), (yz, k))
  | inr e ↦ simp e (elim (Bool-cases (leb x z)) [
    | inl f ↦ simp f (gt_of x y e, (lt_of x z f (ground (arith, h)), k))
    | inr f ↦
        simp f (yz, later_part x z zs f (inserted-IsAscending x (z ∷ zs) (ground (arith, h)) k))
  ])
]

pub sorted-IsAscending : (xs : List ℕ) → IsDistinct xs → IsAscending (sorted xs)
sorted-IsAscending [] h = tt
sorted-IsAscending (x ∷ xs) (fresh, h) =
    inserted-IsAscending x (sorted xs) (any-sorted x xs fresh) (sorted-IsAscending xs h)

-- Membership, from the set to the row.
any-inserted-or :
    (x z : ℕ) (ys : List ℕ) → any (λ q. q == z) (inserted x ys) ≡ (x == z) || any (λ q. q == z) ys
any-inserted-or x z [] = refl
any-inserted-or x z (y ∷ ys) = ground (arith, any-inserted-or x z ys)

pub any-sorted-same : (z : ℕ) (xs : List ℕ) → any (λ q. q == z) (sorted xs) ≡ any (λ q. q == z) xs
any-sorted-same z [] = refl
any-sorted-same z (x ∷ xs) =
    any-inserted-or x z (sorted xs) ∙ ap (λ b. (x == z) || b) (any-sorted-same z xs)

any-append-left :
    (z p : ℕ) (xs : List ℕ)
    → any (λ q. q == z) xs ≡ true
    → any (λ q. q == z) (xs ++ (p ∷ [])) ≡ true
any-append-left z p [] h = cc
any-append-left z p (x ∷ xs) h = ground (arith, h, any-append-left z p xs)

any-append-last : (z : ℕ) (xs : List ℕ) → any (λ q. q == z) (xs ++ (z ∷ [])) ≡ true
any-append-last z [] = ground arith
any-append-last z (x ∷ xs) = ground (arith, any-append-last z xs)

pub any-added-left :
    (z p : ℕ) (ps : List ℕ) → any (λ q. q == z) ps ≡ true → any (λ q. q == z) (added ps p) ≡ true
any-added-left z p ps h = elim (Bool-cases (any (λ q. q == p) ps)) [
  | inl e ↦ simp e h
  | inr e ↦ simp e (any-append-left z p ps h)
]

pub any-added-last : (p : ℕ) (ps : List ℕ) → any (λ q. q == p) (added ps p) ≡ true
any-added-last p ps = elim (Bool-cases (any (λ q. q == p) ps)) [
  | inl e ↦ simp e
  | inr e ↦ simp e (any-append-last p ps)
]

pub any-all_added :
    (z : ℕ) (qs ps : List ℕ)
    → any (λ q. q == z) ps ≡ true
    → any (λ q. q == z) (all_added ps qs) ≡ true
any-all_added z [] ps h = h
any-all_added z (q ∷ qs) ps h = any-all_added z qs (added ps q) (any-added-left z q ps h)

pub later_member :
    (c z : ℕ) (cs : List ℕ)
    → any (λ q. q == z) (c ∷ cs) ≡ true
    → (c == z) ≡ false
    → any (λ q. q == z) cs ≡ true
later_member c z cs h e = simp e at h

same_page : (q z : ℕ) → (q == z) ≡ true → q ≡ z
same_page q z h = ground (arith, h)

any-same :
    (z q : ℕ) (ps : List ℕ)
    → (q == z) ≡ true
    → any (λ p. p == q) ps ≡ true
    → any (λ p. p == z) ps ≡ true
any-same z q ps e h = sym (ap (λ n. any (λ p. p == n) ps) (same_page q z e)) ∙ h

pub any-all_added-right :
    (z : ℕ) (qs ps : List ℕ)
    → any (λ q. q == z) qs ≡ true
    → any (λ q. q == z) (all_added ps qs) ≡ true
any-all_added-right z [] ps h = cc
any-all_added-right z (q ∷ qs) ps h = elim (Bool-cases (q == z)) [
  | inl e ↦ any-all_added z qs (added ps q) (any-same z q (added ps q) e (any-added-last q ps))
  | inr e ↦ any-all_added-right z qs (added ps q) (later_member q z qs h e)
]

no_room : (z from : ℕ) → from ≤ z → z < from + 0 → ⊥
no_room z from h k = omega (arith, h, k)

any-counted : (z from n : ℕ) → from ≤ z → z < from + n → any (λ q. q == z) (counted from n) ≡ true
any-counted z from zero h k = elim (no_room z from h k) [ ]
any-counted z from (suc n) h k = elim (Bool-cases (from == z)) [
  | inl e ↦ simp e
  | inr e ↦ simp e (any-counted z (suc from) n (ground (arith, h, e)) (omega (arith, k)))
]

any-filter :
    (z : ℕ) (p : ℕ → Bool) (qs : List ℕ)
    → p z ≡ true
    → any (λ q. q == z) qs ≡ true
    → any (λ q. q == z) (filter p qs) ≡ true
any-filter z p [] h k = cc
any-filter z p (q ∷ qs) h k = elim (Bool-cases (q == z)) [
  | inl e ↦ simp (ap p (same_page q z e) ∙ h) (simp e)
  | inr e ↦
      let later = any-filter z p qs h (later_member q z qs k e) in
      elim (Bool-cases (p q)) [ inl f ↦ simp f (simp e later) | inr f ↦ simp f later ]
]

pub any-page_window :
    (page page_count siblings : ℕ)
    → 1 ≤ page
    → page ≤ page_count
    → any (λ q. q == page) (page_window page page_count siblings) ≡ true
any-page_window page page_count siblings h k =
    any-filter page (λ p. leb 1 p && leb p page_count)
      (counted (page - siblings) (suc (page + siblings) - (page - siblings))) (ground (arith, h, k))
      (any-counted page (page - siblings) (suc (page + siblings) - (page - siblings)) (omega arith)
        (omega arith))
