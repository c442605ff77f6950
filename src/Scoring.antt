-- ===== src/Scoring.antt =====
-- Scoring of a candidate (backend/app/scoring): the hard filters (HardFilter), the rule engine with
-- its methods (RuleEngine, Ranking), the judge over the model gateway (Judge), the grade of a total
-- (Grade), and the pipeline that runs them and writes the score (Pipeline).
pub mod Grade
pub mod Judge
pub mod HardFilter
pub mod Ranking
pub mod RuleEngine
pub mod Pipeline
pub mod Samples
mod Tests
