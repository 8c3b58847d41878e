-- ===== src/Workspace/Template/Canvas/Moves.antt =====
-- What a reordering does to the list.
use mathlib.Core.List.{Perm}
use mathlib.Core.List.Perm
use mathlib.Core.Path.{subst}
use mathlib.Core.Option.{some-injective}
use billgen.Prelude.{
  ℕ, suc, zero, ◌+◌, ◌<◌, ◌≤◌, Bool, List, [], ◌∷◌, Option, none, some, ◌≡◌, refl, sym, ap, ◌∙◌,
  ◌≢◌, ◌⊎◌, inl, inr, arith, length, lt→ltb, get_elem?, Option-cases,
}
use billgen.Workspace.Template.Canvas.{
  index_from, remove_at, insert_at, move, nudge_up, nudge_down, index_at, drawn_at,
}

module _ {A : Type 0} where
  -- The graph of `remove_at`.
  pub data Removed : ℕ → List A → A → List A → Type 0 where
    here : {x : A} {xs : List A} → Removed zero (x ∷ xs) x xs
    there :
        {i : ℕ} {x y : A} {xs ys : List A} → Removed i xs y ys → Removed (suc i) (x ∷ xs) y (x ∷ ys)

  pub remove_at-Removed :
      (i : ℕ) (xs : List A)
      → ((remove_at i xs ≡ none) × (length xs ≤ i))
        ⊎ ((y : A) × (ys : List A) × (remove_at i xs ≡ some (y, ys)) × Removed i xs y ys)
  unfolding remove_at
  remove_at-Removed i [] = inl (refl, omega arith)
  remove_at-Removed zero (x ∷ xs) = inr (x, xs, refl, here)
  remove_at-Removed (suc i) (x ∷ xs) = elim (remove_at-Removed i xs) [
    | inl (e, h) ↦ inl (rw e refl, omega arith)
    | inr (y, ys, e, r) ↦ inr (y, x ∷ ys, rw e refl, there r)
  ]

  insert_at-Removed : {i : ℕ} {xs ys : List A} {y : A} → Removed i xs y ys → insert_at i y ys ≡ xs
  unfolding insert_at
  insert_at-Removed here = refl
  insert_at-Removed (there {x} r) = ap (λ l. x ∷ l) (insert_at-Removed r)

  pub length-Removed :
      {i : ℕ} {xs ys : List A} {y : A} → Removed i xs y ys → length xs ≡ suc (length ys)
  length-Removed here = refl
  length-Removed (there r) = ap suc (length-Removed r)

  Removed-perm : {i : ℕ} {xs ys : List A} {y : A} → Removed i xs y ys → Perm (y ∷ ys) xs
  Removed-perm (here {x} {xs}) = Perm.refl (x ∷ xs)
  Removed-perm (there {x} {y} {ys} r) = Perm.trans (Perm.swap x y ys) (Perm.cons x (Removed-perm r))

  Removed-insert_at :
      (i : ℕ) (y : A) (xs : List A) → i ≤ length xs → Removed i (insert_at i y xs) y xs
  unfolding insert_at
  Removed-insert_at zero y xs h = here
  Removed-insert_at (suc i) y [] h = absurd (omega arith)
  Removed-insert_at (suc i) y (x ∷ xs) h = there (Removed-insert_at i y xs (omega arith))

  Removed-remove_at :
      {i : ℕ} {xs ys : List A} {y : A} → Removed i xs y ys → remove_at i xs ≡ some (y, ys)
  unfolding remove_at
  Removed-remove_at here = refl
  Removed-remove_at (there r) = rw (Removed-remove_at r) refl

  get_elem?-Removed_below :
      {i : ℕ} {xs ys : List A} {y : A} (j : ℕ)
      → Removed i xs y ys
      → j < i
      → get_elem? xs j ≡ get_elem? ys j
  get_elem?-Removed_below j here h = absurd (omega arith)
  get_elem?-Removed_below zero (there r) h = refl
  get_elem?-Removed_below (suc j) (there r) h = get_elem?-Removed_below j r (omega arith)

  get_elem?-Removed_above :
      {i : ℕ} {xs ys : List A} {y : A} (j : ℕ)
      → Removed i xs y ys
      → i ≤ j
      → get_elem? xs (suc j) ≡ get_elem? ys j
  get_elem?-Removed_above j here h = refl
  get_elem?-Removed_above zero (there r) h = absurd (omega arith)
  get_elem?-Removed_above (suc j) (there r) h = get_elem?-Removed_above j r (omega arith)

  get_elem?-Removed_self :
      {i : ℕ} {xs ys : List A} {y : A} → Removed i xs y ys → get_elem? xs i ≡ some y
  get_elem?-Removed_self here = refl
  get_elem?-Removed_self (there r) = get_elem?-Removed_self r

  pub move_of_remove_at :
      (from to : ℕ) (xs : List A) {y : A} {rest : List A}
      → remove_at from xs ≡ some (y, rest)
      → move from to xs ≡ some (insert_at to y rest)
  unfolding move
  move_of_remove_at from to xs e = rw (e, move) refl

  move-Removed :
      (from to : ℕ) (xs : List A)
      → from < length xs
      → to < length xs
      → (y : A) × (rest ys : List A) × (move from to xs ≡ some ys)
        × Removed from xs y rest
        × Removed to ys y rest
  move-Removed from to xs h k = elim (remove_at-Removed from xs) [
    | inl (e, g) ↦ absurd (omega arith)
    | inr (y, rest, e, r) ↦ (
      y,
      rest,
      insert_at to y rest,
      move_of_remove_at from to xs e,
      r,
      Removed-insert_at to y rest (omega (arith, length-Removed r)),
    )
  ]

  -- A drop inside the list moves one row: the row from the one place is at the other, the rest keep
  -- their order, nothing is lost or doubled, and the move back restores the list.
  pub move_lem :
      (from to : ℕ) (xs : List A)
      → from < length xs
      → to < length xs
      → (y : A) × (rest ys : List A) × (move from to xs ≡ some ys)
        × (remove_at from xs ≡ some (y, rest))
        × (remove_at to ys ≡ some (y, rest))
        × Perm ys xs
        × (move to from ys ≡ some xs)
  move_lem from to xs h k =
      let (y, rest, ys, e, r, r') = move-Removed from to xs h k in
      (
        y,
        rest,
        ys,
        e,
        Removed-remove_at r,
        Removed-remove_at r',
        Perm.trans (Perm.symm (Removed-perm r')) (Removed-perm r),
        move_of_remove_at to from ys (Removed-remove_at r') ∙ ap some (insert_at-Removed r),
      )

  get_elem?-drawn_at :
      {from over : ℕ} {xs ys rest : List A} {y : A}
      → Removed from xs y rest
      → Removed over ys y rest
      → (j : ℕ) → j ≢ from
      → get_elem? ys (drawn_at from over j) ≡ get_elem? xs j
  unfolding drawn_at
  get_elem?-drawn_at r r' zero ne = ground (
    arith,
    get_elem?-Removed_below zero r,
    get_elem?-Removed_below zero r',
    get_elem?-Removed_above zero r',
  )
  get_elem?-drawn_at r r' (suc j) ne = ground (
    arith,
    get_elem?-Removed_below (suc j) r,
    get_elem?-Removed_below (suc j) r',
    get_elem?-Removed_above (suc j) r',
    get_elem?-Removed_above j r,
    get_elem?-Removed_above j r',
    get_elem?-Removed_below j r',
  )

  -- While a row is dragged, every other row is drawn where the drop will put it, and the dragged row
  -- lands on the slot that the pointer is over.
  pub drawn_at-move :
      (from over : ℕ) (xs ys : List A) (j : ℕ)
      → from < length xs
      → over < length xs
      → move from over xs ≡ some ys
      → j ≢ from
      → (get_elem? ys over ≡ get_elem? xs from)
        × (get_elem? ys (drawn_at from over j) ≡ get_elem? xs j)
  drawn_at-move from over xs ys j h k e ne =
      let (y, rest, ys', e', r, r') = move-Removed from over xs h k in
      let same : ys' ≡ ys = some-injective ys' ys (sym e' ∙ e) in
      subst
        (λ zs.
          (get_elem? zs over ≡ get_elem? xs from)
          × (get_elem? zs (drawn_at from over j) ≡ get_elem? xs j))
        same
        (get_elem?-Removed_self r' ∙ sym (get_elem?-Removed_self r), get_elem?-drawn_at r r' j ne)

  -- Alt + Down on a row that is not the last moves it, and Alt + Up on it, in its new place, undoes
  -- that.
  nudge_back :
      (i : ℕ) (xs : List A)
      → suc i < length xs
      → (ys : List A) × (nudge_down i xs ≡ some ys) × (nudge_up (suc i) ys ≡ some xs)
  unfolding nudge_down nudge_up
  nudge_back i xs h =
      let m = move_lem i (suc i) xs (omega arith) h in
      (m.2, rw (lt→ltb (suc i) (length xs) h) m.3, m.7)

index_from_bounds :
    {Box : Type 0} (above : Box → Bool) (i : ℕ) (rows : List (Option Box)) (k : ℕ)
    → index_from above i rows ≡ some k
    → k < i + length rows
index_from_bounds above i [] k e = cc
index_from_bounds above i (none ∷ rows) k e =
    omega (arith, index_from_bounds above (suc i) rows k e)
index_from_bounds above i (some box ∷ rows) k e =
    ground (arith, index_from_bounds above (suc i) rows k)

-- The slot under the pointer is one of the list's, wherever the rows are drawn and whichever of them
-- are mounted.
index_at-lt :
    {Box : Type 0} (above : Box → Bool) (rows : List (Option Box))
    → 0 < length rows
    → index_at above rows < length rows
unfolding index_at
index_at-lt above rows h = elim (Option-cases (index_from above 0 rows)) [
  | inl past ↦ rw past (omega arith)
  | inr (k, e) ↦ rw e (omega (arith, index_from_bounds above 0 rows k e))
]
