-- ===== src/Workspace/Template.antt =====
-- The invoice templates of frontend-react/src/workspace: the model (templateSchema.ts), the starter
-- models (templatePresets.ts), the list that is reordered by dragging (BlockCanvas.tsx) and the
-- studio that edits a template (TemplateWorkspace.tsx).
pub mod Schema
pub mod Defaults
pub mod Presets
pub mod Canvas
pub mod Studio
pub mod Wire
mod Scenarios
