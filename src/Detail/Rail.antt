-- ===== src/Detail/Rail.antt =====
-- `ContextRail` of frontend-react/src/panels/InvoiceDetailPanel.tsx: the invoice's lifecycle.
use billgen.Prelude.{
  ℕ, suc, String, Bool, List, [], ◌∷◌, ◌++◌, ◌===◌, ◌==◌, filter, length, ltb, if◌then◌else◌,
}

-- What is read of an audit entry.
pub record AuditEntry : Type 0 where
  pub id : String
  pub action : String
  pub timestamp : String
  pub target_id : String

pub data ItemStatus : Type 0 where
  done current : ItemStatus

pub record TimelineItem : Type 0 where
  pub key : String
  pub label : String
  pub timestamp : String
  pub status : ItemStatus

-- How the query of the entries stands.
pub data History : Type 0 where
  loading failed : History
  answered : List AuditEntry → History

pub data Rail : Type 0 where
  skeleton alert stale_filter no_history : Rail
  timeline : List TimelineItem → Rail

abbrev pub of_invoice : String → AuditEntry → Bool
of_invoice invoice_id entry = entry.target_id === invoice_id

module _ {ℓ} {A : Type ℓ} where
  abbrev pub reverse : List A → List A
  reverse [] = []
  reverse (x ∷ xs) = reverse xs ++ (x ∷ [])

-- The texts: `tAuditAction`, and a date's `toLocaleString`.
pub record Wording : Type 0 where
  pub audit_action : String → String
  pub locale_string : String → String

module _ (wording : Wording) where
  abbrev pub item : ℕ → ℕ → AuditEntry → TimelineItem
  item last index entry = record {
    key = entry.id;
    label = wording.audit_action entry.action;
    timestamp = wording.locale_string entry.timestamp;
    status = if suc index == last then current else done;
  }

  -- `map` with the index, from one on.
  abbrev pub items_from : ℕ → ℕ → List AuditEntry → List TimelineItem
  items_from last index [] = []
  items_from last index (entry ∷ entries) =
      item last index entry ∷ items_from last (suc index) entries

  unfoldable pub items_of : List AuditEntry → List TimelineItem
  items_of entries = items_from (length entries) 0 (reverse entries)

  abbrev pub drawn : List TimelineItem → Rail
  drawn [] = no_history
  drawn (i ∷ is) = timeline (i ∷ is)

  unfoldable pub context_rail : String → History → Rail
  unfolding items_of
  context_rail invoice_id loading = skeleton
  context_rail invoice_id failed = alert
  context_rail invoice_id (answered returned) =
      let entries = filter (of_invoice invoice_id) returned in
      if ltb (length entries) (length returned) then stale_filter else drawn (items_of entries)
