-- ===== src/Client.antt =====
-- frontend-react/src/lib/apiClient.ts: the typed client of the HTTP API.
pub mod Http
pub mod Request
pub mod Auth
pub mod Calls
mod Scenarios
