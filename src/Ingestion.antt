-- ===== src/Ingestion.antt =====
-- Durable ingestion of resumes: the state machine of a job (States), the job service (Jobs), the
-- sweeper that recovers lost jobs (Sweeper), and the proofs about them.
pub mod States
pub mod Jobs
pub mod Sweeper
pub mod Invariant
pub mod Claim
mod Tests
pub mod Intake
pub mod Worker
pub mod Dedupe
pub mod Recovery
pub mod History
pub mod Redelivery
