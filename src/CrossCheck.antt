-- ===== src/CrossCheck.antt =====
-- The second opinion on a score (backend/app/services/cross_check): which scores get one (Sampling),
-- its work queue (State), and the worker that takes checks from it (Worker).
pub mod State
pub mod Sampling
pub mod Worker
mod Tests
