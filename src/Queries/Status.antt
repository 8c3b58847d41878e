-- ===== src/Queries/Status.antt =====
-- What a component reads of the last run of a mutation of frontend-react/src/hooks/queries.ts.
use billgen.Prelude.{Bool, true, false}

pub data MutationStatus : Type 0 where
  idle pending succeeded failed : MutationStatus

abbrev pub is_pending : MutationStatus → Bool
is_pending pending = true
is_pending _ = false

abbrev pub is_error : MutationStatus → Bool
is_error failed = true
is_error _ = false

-- The status once the run has been answered.
abbrev pub ended : Bool → MutationStatus
ended true = succeeded
ended false = failed

-- An answer reaches a component only while its mutation runs.
abbrev pub settle : Bool → MutationStatus → MutationStatus
settle ok pending = ended ok
settle ok t = t
