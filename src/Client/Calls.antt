-- ===== src/Client/Calls.antt =====
-- The endpoint methods of `ApiClient` in frontend-react/src/lib/apiClient.ts, each as the call of
-- `request` that it makes: one data type for each section of the class, a constructor for each
-- method, and a `plan` that gives the request. The methods of the section on auth that set or clear
-- tokens are in Client/Auth; the two of the backup section that use `fetchWithAuth` are in Backup.
pub mod Build
pub mod Records
pub mod Sales
pub mod Backup
pub mod Reports
pub mod Laws
