-- ===== src/Workspace/Invoice.antt =====
-- The invoice draft of frontend-react/src/workspace: its data (types.ts), the readiness check
-- (readiness.ts), the live totals (totals.ts) and the four steps that edit it
-- (InvoiceWorkspace.tsx).
pub mod Draft
pub mod Readiness
pub mod Items
pub mod Totals
pub mod Composer
mod Scenarios
