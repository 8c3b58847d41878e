-- ===== src/Queries.antt =====
-- frontend-react/src/hooks/queries.ts and the query client of providers/BillGenProvider.tsx: the queries
-- of the screens, each with its key, whether it is enabled and the call of `ApiClient` that answers it,
-- and the mutations, each with its call and the keys that it invalidates. The cache is React Query's:
-- what it does with a key is a parameter. Stale times are not modelled, nor is the
-- debounce of the search.
pub mod Status
pub mod Keys
pub mod Reads
pub mod Writes
mod Scenarios
