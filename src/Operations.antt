-- ===== src/Operations.antt =====
-- What the calls of models cost (backend/app/services/operations): the budgets and their alerts.
pub mod Budgets
mod Tests
