-- ===== src/Scaffold.antt =====
-- frontend-react/src/scaffold/ia.ts: the tree of the product's areas (Ia), what it says of each area
-- (Spec), and the lists that the shells read from it.
pub mod Ia
pub mod Spec
pub mod Surfaces
pub mod Router
pub mod Shell
mod Scenarios
