-- ===== src/Workspace/Template/Canvas.antt =====
-- frontend-react/src/workspace/BlockCanvas.tsx: reordering by dragging and by Alt + an arrow key.
pub mod Moves
use billgen.Prelude.{
  ℕ, suc, zero, ◌+◌, ◌-◌, Bool, true, false, not, ◌&&◌, List, [], ◌∷◌, Option, none, some, ltb, leb,
  ◌==◌, ◌===◌, if◌then◌else◌, length, String,
}

module _ {A : Type 0} where
  -- `list.splice(i, 1)`, with what it takes out; none where i is out of range.
  unfoldable pub remove_at : ℕ → List A → Option (A × List A)
  remove_at i [] = none
  remove_at zero (x ∷ xs) = some (x, xs)
  remove_at (suc i) (x ∷ xs) = elim (remove_at i xs) [
    | none ↦ none
    | some (y, ys) ↦ some (y, x ∷ ys)
  ]

  -- `list.splice(i, 0, x)`: past the end is at the end.
  unfoldable pub insert_at : ℕ → A → List A → List A
  insert_at zero y xs = y ∷ xs
  insert_at (suc i) y [] = y ∷ []
  insert_at (suc i) y (x ∷ xs) = x ∷ insert_at i y xs

  -- The two splices of `endDrag` and `nudge`. With `from` out of range the code would insert
  -- `undefined`: none.
  unfoldable pub move : ℕ → ℕ → List A → Option (List A)
  unfolding remove_at insert_at
  move from to xs = elim (remove_at from xs) [
    | none ↦ none
    | some (y, ys) ↦ some (insert_at to y ys)
  ]

  -- `nudge(index, direction)`: none where it does nothing.
  unfoldable pub nudge_up : ℕ → List A → Option (List A)
  unfolding move
  nudge_up zero xs = none
  nudge_up (suc i) xs = move (suc i) i xs

  unfoldable pub nudge_down : ℕ → List A → Option (List A)
  unfolding move
  nudge_down i xs = if ltb (suc i) (length xs) then move i (suc i) xs else none

-- `indexAtY`: a row that is not mounted has no box, and `above` says whether the pointer is above
-- the middle of one. Past the last row it is `blocks.length - 1`.
abbrev pub index_from : {Box : Type 0} → (Box → Bool) → ℕ → List (Option Box) → Option ℕ
index_from above i [] = none
index_from above i (none ∷ rows) = index_from above (suc i) rows
index_from above i (some box ∷ rows) =
    let later = index_from above (suc i) rows in if above box then some i else later

abbrev or_last : Option ℕ → ℕ → ℕ
or_last none n = n - 1
or_last (some i) n = i

unfoldable pub index_at : {Box : Type 0} → (Box → Bool) → List (Option Box) → ℕ
index_at above rows = or_last (index_from above 0 rows) (length rows)

-- The row where row `index` is drawn while `from` is dragged over `over`: `index + shift`.
unfoldable pub drawn_at : ℕ → ℕ → ℕ → ℕ
drawn_at from over index =
    if ltb from over && ltb from index && leb index over
    then index - 1
    else if ltb over from && leb over index && ltb index from
    then index + 1
    else index
