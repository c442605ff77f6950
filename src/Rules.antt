-- ===== src/Rules.antt =====
-- The versions of a JD's rules (backend/app/services/rule_publication.py): how a draft is judged
-- (WhatIf) and how drafts are created, evaluated and published (Publication).
pub mod WhatIf
pub mod Publication
mod Tests
