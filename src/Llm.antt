-- ===== src/Llm.antt =====
-- Calls of the language models and what they cost: backend/app/services/llm/.
pub mod Pricing
pub mod Usage
pub mod Gateway
mod Tests
