-- ===== src/Sync.antt =====
-- Synchronisation with an outside source of resumes (backend/app/services/sync): the ledger of
-- items already seen (Ledger), and one run of the pull (Runner).
pub mod Ledger
pub mod Runner
pub mod Replay
pub mod JdMetadata
mod Tests
