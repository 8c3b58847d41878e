-- ===== src/Workspace/Invoice/Items/Lookup.antt =====
-- Lines are found by their keys after every change of the list.
use billgen.Prelude.{
  String, Bool, ◌&&◌, List, [], ◌∷◌, Option, none, some, ◌≡◌, ◌===◌, if◌then◌else◌, find, any,
  eq_iff, arith,
}
use billgen.Workspace.Invoice.Draft.{DraftLine}
use billgen.Workspace.Invoice.Items.{change_line, remove_line}

abbrev line_at : String → List DraftLine → Option DraftLine
line_at key lines = find (λ l. l.key === key) lines

abbrev pub has_line : String → List DraftLine → Bool
has_line key lines = any (λ l. l.key === key) lines

-- The drawer changes the line that it has open, where the draft still has it, and no other.
change_line_lem :
    (line : DraftLine) (lines : List DraftLine) (key : String)
    → line_at key (change_line line lines)
      ≡ (if key === line.key && has_line key lines then some line else line_at key lines)
unfolding change_line
change_line_lem line [] key = ground arith
change_line_lem line (l ∷ lines) key = ground (
  arith,
  eq_iff l.key line.key,
  eq_iff l.key key,
  eq_iff line.key key,
  eq_iff key line.key,
  change_line_lem line lines key,
)

-- Removing a line takes every line of its key away and leaves the rest.
remove_line_lem :
    (removed : String) (lines : List DraftLine) (key : String)
    → line_at key (remove_line removed lines)
      ≡ (if key === removed then none else line_at key lines)
unfolding remove_line
remove_line_lem removed [] key = ground arith
remove_line_lem removed (l ∷ lines) key = ground (
  arith,
  eq_iff l.key removed,
  eq_iff l.key key,
  eq_iff key removed,
  remove_line_lem removed lines key,
)
