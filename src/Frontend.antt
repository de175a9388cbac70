-- ===== src/Frontend.antt =====
-- The reducer that the user interface keeps its picture with:
-- packages/telemetry-core/src/frontend-reducer.ts and frontend-snapshot.ts.
pub mod Types
pub mod Entries
pub mod Recent
pub mod Upsert
pub mod Mirror
pub mod Agreement
pub mod Starts
pub mod Steps
pub mod Tests
