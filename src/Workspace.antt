-- ===== src/Workspace.antt =====
-- frontend-react/src/workspace: the invoice templates and the invoice draft.
pub mod Template
pub mod Invoice
