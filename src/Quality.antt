-- ===== src/Quality.antt =====
-- How good the decisions are (backend/app/services/quality): metrics over labelled candidates
-- (Metrics), and the releases that record them (Releases).
pub mod Metrics
pub mod Releases
mod Tests
